-- ===== src/Base/Table.antt =====
-- The statements that the code sends to a table, over the list of its rows.
use Prim.Native.Nat.{ℕ, suc}
use mathlib.Core.Path.{◌≡◌, refl}
use mathlib.Core.Bool.{Bool, true, false}
use mathlib.Core.List.{List, [], ◌∷◌, ◌++◌}
use mathlib.Core.Option.{Option, none, some}
use native.Mathlib.Omega.{arith}
use open_log_tool_server.Base.Lists.{any}
use open_log_tool_server.Base.Tests.{if◌then◌else◌}

module _ {A : Type 0} where
  -- SELECT … WHERE p, the first row.
  unfoldable pub select : (A → Bool) → List A → Option A
  select p [] = none
  select p (x ∷ xs) = if p x then some x else select p xs

  -- SELECT … WHERE p, all rows.
  unfoldable pub select_all : (A → Bool) → List A → List A
  select_all p [] = []
  select_all p (x ∷ xs) = let rest = select_all p xs in if p x then x ∷ rest else rest

  -- UPDATE … WHERE p.
  unfoldable pub modify : (A → Bool) → (A → A) → List A → List A
  modify p f [] = []
  modify p f (x ∷ xs) = let rest = modify p f xs in if p x then f x ∷ rest else x ∷ rest

  -- DELETE … WHERE p.
  unfoldable pub delete : (A → Bool) → List A → List A
  delete p [] = []
  delete p (x ∷ xs) = let rest = delete p xs in if p x then rest else x ∷ rest

  -- The number of rows that a statement changes.
  unfoldable pub changes : (A → Bool) → List A → ℕ
  changes p [] = 0
  changes p (x ∷ xs) = let rest = changes p xs in if p x then suc rest else rest

  pub select-holds : (p : A → Bool) (xs : List A) (x : A) → select p xs ≡ some x → p x ≡ true
  unfolding select
  select-holds p [] x h = ground arith
  select-holds p (y ∷ xs) x h = ground (arith, select-holds p xs x)

  -- An update that the selection does not see.
  pub select-modify :
      (p q : A → Bool) (f : A → A) (xs : List A) (x : A)
      → ((y : A) → p (f y) ≡ p y)
      → select p xs ≡ some x
      → select p (modify q f xs) ≡ some (if q x then f x else x)
  unfolding select modify
  select-modify p q f [] x keep h = ground arith
  select-modify p q f (y ∷ xs) x keep h = ground (arith, keep y, select-modify p q f xs x keep)

  pub select-modify-none :
      (p q : A → Bool) (f : A → A) (xs : List A)
      → ((y : A) → p (f y) ≡ p y)
      → select p xs ≡ none
      → select p (modify q f xs) ≡ none
  unfolding select modify
  select-modify-none p q f [] keep h = refl
  select-modify-none p q f (y ∷ xs) keep h =
      ground (arith, keep y, select-modify-none p q f xs keep)

  pub select-append_some :
      (p : A → Bool) (xs ys : List A) (x : A) → select p xs ≡ some x → select p (xs ++ ys) ≡ some x
  unfolding select
  select-append_some p [] ys x h = ground arith
  select-append_some p (y ∷ xs) ys x h = ground (arith, select-append_some p xs ys x)

  pub select-append_none :
      (p : A → Bool) (xs ys : List A) → select p xs ≡ none → select p (xs ++ ys) ≡ select p ys
  unfolding select
  select-append_none p [] ys h = refl
  select-append_none p (y ∷ xs) ys h = ground (arith, select-append_none p xs ys)

  pub select_all-append :
      (p : A → Bool) (xs ys : List A) → select_all p (xs ++ ys) ≡ select_all p xs ++ select_all p ys
  unfolding select_all
  select_all-append p [] ys = refl
  select_all-append p (x ∷ xs) ys = ground (arith, select_all-append p xs ys)

  pub select-delete :
      (p q : A → Bool) (xs : List A)
      → ((y : A) → p y ≡ true → q y ≡ false)
      → select p (delete q xs) ≡ select p xs
  unfolding select delete
  select-delete p q [] apart = refl
  select-delete p q (y ∷ xs) apart = ground (arith, apart y, select-delete p q xs apart)

  pub select-delete_self : (p : A → Bool) (xs : List A) → select p (delete p xs) ≡ none
  unfolding select delete
  select-delete_self p [] = refl
  select-delete_self p (y ∷ xs) = ground (arith, select-delete_self p xs)

  pub changes-select : (p : A → Bool) (xs : List A) → select p xs ≡ none → changes p xs ≡ 0
  unfolding select changes
  changes-select p [] h = refl
  changes-select p (y ∷ xs) h = ground (arith, changes-select p xs)

  -- An update of rows that the selection passes over.
  pub select-modify_apart :
      (p q : A → Bool) (f : A → A) (xs : List A)
      → ((y : A) → p (f y) ≡ p y)
      → ((y : A) → q y ≡ true → p y ≡ false)
      → select p (modify q f xs) ≡ select p xs
  unfolding select modify
  select-modify_apart p q f [] keep apart = refl
  select-modify_apart p q f (y ∷ xs) keep apart =
      ground (arith, keep y, apart y, select-modify_apart p q f xs keep apart)

  pub select-snoc_apart :
      (p : A → Bool) (xs : List A) (y : A) → p y ≡ false → select p (xs ++ y ∷ []) ≡ select p xs
  unfolding select
  select-snoc_apart p [] y h = rw h
  select-snoc_apart p (x ∷ xs) y h = ground (arith, select-snoc_apart p xs y h)

  pub select-snoc_new :
      (p : A → Bool) (xs : List A) (y : A)
      → select p xs ≡ none
      → p y ≡ true
      → select p (xs ++ y ∷ []) ≡ some y
  unfolding select
  select-snoc_new p [] y h e = rw e
  select-snoc_new p (x ∷ xs) y h e = ground (arith, select-snoc_new p xs y)

  -- Nothing is selected of what a deletion takes.
  pub select-delete_all :
      (p q : A → Bool) (xs : List A)
      → ((y : A) → p y ≡ true → q y ≡ true)
      → select p (delete q xs) ≡ none
  unfolding select delete
  select-delete_all p q [] within = refl
  select-delete_all p q (y ∷ xs) within = ground (arith, within y, select-delete_all p q xs within)

  -- Nothing is selected by a condition that its own update makes false.
  pub select-modify_self :
      (p : A → Bool) (f : A → A) (xs : List A)
      → ((y : A) → p (f y) ≡ false)
      → select p (modify p f xs) ≡ none
  unfolding select modify
  select-modify_self p f [] undone = refl
  select-modify_self p f (y ∷ xs) undone =
      ground (arith, undone y, select-modify_self p f xs undone)

  pub any-modify :
      (g q : A → Bool) (f : A → A) (xs : List A)
      → ((y : A) → g (f y) ≡ g y)
      → any g (modify q f xs) ≡ any g xs
  unfolding modify
  any-modify g q f [] keep = refl
  any-modify g q f (y ∷ xs) keep = ground (arith, keep y, any-modify g q f xs keep)
