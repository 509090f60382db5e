-- ===== src/Base/Counts.antt =====
-- How many rows the statements change, and which rows they leave.
use Prim.Native.Nat.{◌+◌}
use mathlib.Core.Path.{◌≡◌, refl}
use mathlib.Core.Bool.{Bool, true, false}
use mathlib.Core.List.{List, [], ◌∷◌}
use mathlib.Core.Option.{none}
use mathlib.Core.Logic.{inl, inr}
use native.Mathlib.Omega.{arith}
use open_log_tool_server.Base.Lists.{length, any, All}
use open_log_tool_server.Base.Tests.{Bool-cases}
use open_log_tool_server.Base.Table.{select, select_all, modify, delete, changes}

module _ {A : Type 0} where
  pub length-delete : (p : A → Bool) (xs : List A) → length (delete p xs) + changes p xs ≡ length xs
  unfolding delete changes
  length-delete p [] = refl
  length-delete p (x ∷ xs) = ground (arith, length-delete p xs)

  -- An update that marks rows which had no mark.
  pub changes-modify_marked :
      (marked p : A → Bool) (f : A → A) (xs : List A)
      → ((y : A) → p y ≡ true → marked y ≡ false)
      → ((y : A) → marked (f y) ≡ true)
      → changes marked (modify p f xs) ≡ changes marked xs + changes p xs
  unfolding modify changes
  changes-modify_marked marked p f [] unmarked marks = refl
  changes-modify_marked marked p f (x ∷ xs) unmarked marks =
      ground (arith, unmarked x, marks x, changes-modify_marked marked p f xs)

  -- A deletion or an update of rows that the selection passes over.
  pub select_all-delete_apart :
      (p q : A → Bool) (xs : List A)
      → ((y : A) → q y ≡ true → p y ≡ false)
      → select_all p (delete q xs) ≡ select_all p xs
  unfolding select_all delete
  select_all-delete_apart p q [] apart = refl
  select_all-delete_apart p q (x ∷ xs) apart =
      ground (arith, apart x, select_all-delete_apart p q xs apart)

  pub select_all-modify_apart :
      (p q : A → Bool) (f : A → A) (xs : List A)
      → ((y : A) → p (f y) ≡ p y)
      → ((y : A) → q y ≡ true → p y ≡ false)
      → select_all p (modify q f xs) ≡ select_all p xs
  unfolding select_all modify
  select_all-modify_apart p q f [] keep apart = refl
  select_all-modify_apart p q f (x ∷ xs) keep apart =
      ground (arith, keep x, apart x, select_all-modify_apart p q f xs keep apart)

  -- What a selection that finds no row says of each row.
  pub All-unselected : (p : A → Bool) (xs : List A) → select p xs ≡ none → All (λ x. p x ≡ false) xs
  unfolding select
  All-unselected p [] h = tt
  All-unselected p (x ∷ xs) h = elim (Bool-cases (p x)) [
    | inl hit ↦ cc (rw hit at h)
    | inr missed ↦ (missed, All-unselected p xs (rw missed at h))
  ]

  pub All-unmet : (p : A → Bool) (xs : List A) → any p xs ≡ false → All (λ x. p x ≡ false) xs
  All-unmet p [] h = tt
  All-unmet p (x ∷ xs) h = (ground arith, All-unmet p xs (ground arith))
