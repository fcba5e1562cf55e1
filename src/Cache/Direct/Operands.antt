-- ===== src/Cache/Direct/Operands.antt =====
-- The operand array of an entry: what was written is what matches.
use oxidd.Prelude.{
  ℕ, suc, ◌+◌, ◌≤◌, ◌<◌, ◌≡◌, refl, true, List, [], ◌∷◌, arith, ◌==◌, ==_iff, length,
}
use oxidd.Cache.Direct.{write_from, match_from}

write_from_before : (i : ℕ) (xs : List ℕ) (a : ℕ → ℕ) (j : ℕ) → j < i → write_from i xs a j ≡ a j
unfolding write_from
write_from_before i [] a j h = refl
write_from_before i (x ∷ xs) a j h = ground (arith, write_from_before (suc i) xs a j)

-- Only the part of the array that is compared matters.
match_from_congr :
    (i : ℕ) (ys : List ℕ) (a b : ℕ → ℕ)
    → ((j : ℕ) → i ≤ j → j < i + length ys → a j ≡ b j)
    → match_from i ys a ≡ match_from i ys b
unfolding match_from
match_from_congr i [] a b h = refl
match_from_congr i (y ∷ ys) a b h = rw (
  h i (omega arith) (omega arith),
  match_from_congr (suc i) ys a b (λ j l u. h j (omega arith) (omega arith)),
)

write_from_here : (i x : ℕ) (xs : List ℕ) (a : ℕ → ℕ) → write_from i (x ∷ xs) a i ≡ x
unfolding write_from
write_from_here i x xs a = ground arith

write_from_later :
    (i x : ℕ) (xs : List ℕ) (a : ℕ → ℕ) (j : ℕ)
    → i < j
    → write_from i (x ∷ xs) a j ≡ write_from (suc i) xs a j
unfolding write_from
write_from_later i x xs a j h = ground arith

-- A list of the same length matches what was written only if it is that list.
pub match_from-write_from :
    (i : ℕ) (xs ys : List ℕ) (a : ℕ → ℕ)
    → length ys ≡ length xs
    → match_from i ys (write_from i xs a) ≡ true
    → ys ≡ xs
match_from-write_from i [] [] a l h = refl
match_from-write_from i [] (y ∷ ys) a l h = absurd (omega arith)
match_from-write_from i (x ∷ xs) [] a l h = absurd (omega arith)
match_from-write_from i (x ∷ xs) (y ∷ ys) a l h =
    let tails =
      match_from_congr (suc i) ys (write_from i (x ∷ xs) a) (write_from (suc i) xs a)
        (λ j m u. write_from_later i x xs a j (omega arith)) in
    let both : ((y == x) ≡ true) × (match_from (suc i) ys (write_from (suc i) xs a) ≡ true) =
      (unfold match_from in ground (arith, tails, write_from_here i x xs a)) in
    let rest = match_from-write_from (suc i) xs ys a (omega arith) both.1 in ground (arith, rest)

pub match_from-write_from_after :
    (i n : ℕ) (ys ns : List ℕ) (a : ℕ → ℕ)
    → i + length ys ≤ n
    → match_from i ys (write_from n ns a) ≡ match_from i ys a
match_from-write_from_after i n ys ns a h =
    match_from_congr i ys _ _ (λ j l u. write_from_before n ns a j (omega arith))

-- What was written matches.
pub match_from_written :
    (i : ℕ) (xs : List ℕ) (a : ℕ → ℕ) → match_from i xs (write_from i xs a) ≡ true
unfolding match_from
match_from_written i [] a = refl
match_from_written i (x ∷ xs) a =
    let tails =
      match_from_congr (suc i) xs (write_from i (x ∷ xs) a) (write_from (suc i) xs a)
        (λ j m u. write_from_later i x xs a j (omega arith)) in
    rw (write_from_here i x xs a, (==_iff x x).1 refl, tails) (match_from_written (suc i) xs a)
