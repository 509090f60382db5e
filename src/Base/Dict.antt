-- ===== src/Base/Dict.antt =====
-- `Map` objects: entries in the order of their insertion, under keys with a Boolean equality.
use mathlib.Core.Path.{◌≡◌, refl}
use mathlib.Core.Logic.{◌≢◌, ◌↔◌, ◌⊎◌, inl, inr}
use mathlib.Core.Bool.{Bool, true}
use mathlib.Core.List.{List, [], ◌∷◌, map}
use mathlib.Core.Option.{Option, none, some}
use native.Mathlib.Omega.{arith}
use open_log_tool_server.Base.Tests.{if◌then◌else◌, ◌==◌ as nat_eq, ==_iff, Bool-cases}
use open_log_tool_server.Base.Texts.{Text, text_eq, text_eq_iff}
use open_log_tool_server.Base.Lists.{All, All-map}
use Prim.Native.Nat.{ℕ}

pub record Eq (A : Type 0) : Type 0 where
  pub beq : A → A → Bool
  pub beq_iff : (a b : A) → (beq a b ≡ true) ↔ (a ≡ b)

instance abbrev pub nat_key : Eq ℕ
nat_key = record { beq = nat_eq; beq_iff = ==_iff }

instance abbrev pub text_key : Eq Text
text_key = record { beq = text_eq; beq_iff = text_eq_iff }

module _ {K V : Type 0} ⦃e : Eq K⦄ where
  -- `map.get`.
  unfoldable pub lookup : K → List (K × V) → Option V
  lookup k [] = none
  lookup k ((j, v) ∷ m) = if e.beq j k then some v else lookup k m

  -- `map.set`: an entry that is there keeps its place.
  unfoldable pub put : K → V → List (K × V) → List (K × V)
  put k v [] = (k, v) ∷ []
  put k v ((j, w) ∷ m) = if e.beq j k then (k, v) ∷ m else (j, w) ∷ put k v m

  -- `map.delete`.
  unfoldable pub erase : K → List (K × V) → List (K × V)
  erase k [] = []
  erase k ((j, w) ∷ m) = let rest = erase k m in if e.beq j k then rest else (j, w) ∷ rest

  pub lookup-put :
      (k j : K) (v : V) (m : List (K × V))
      → lookup j (put k v m) ≡ (if e.beq k j then some v else lookup j m)
  unfolding lookup put
  lookup-put k j v [] = refl
  lookup-put k j v ((i, w) ∷ m) =
      ground (arith, e.beq_iff k j, e.beq_iff i k, e.beq_iff i j, lookup-put k j v m)

  pub lookup-erase :
      (k j : K) (m : List (K × V)) → lookup j (erase k m) ≡ (if e.beq k j then none else lookup j m)
  unfolding lookup erase
  lookup-erase k j [] = ground arith
  lookup-erase k j ((i, w) ∷ m) =
      ground (arith, e.beq_iff k j, e.beq_iff i k, e.beq_iff i j, lookup-erase k j m)

  pub lookup-put_self : (k : K) (v : V) (m : List (K × V)) → lookup k (put k v m) ≡ some v
  lookup-put_self k v m = ground (arith, e.beq_iff k k, lookup-put k k v m)

  pub lookup-put_ne :
      (k j : K) (v : V) (m : List (K × V)) → k ≢ j → lookup j (put k v m) ≡ lookup j m
  lookup-put_ne k j v m h = ground (arith, e.beq_iff k j, lookup-put k j v m)

  pub lookup-put_cases :
      (k j : K) (v w : V) (m : List (K × V))
      → lookup j (put k v m) ≡ some w
      → ((k ≡ j) × (v ≡ w)) ⊎ ((k ≢ j) × (lookup j m ≡ some w))
  lookup-put_cases k j v w m h = elim (Bool-cases (e.beq k j)) [
    | inl same ↦ inl ((e.beq_iff k j).0 same, ground (arith, lookup-put k j v m))
    | inr other ↦ inr (ground (arith, e.beq_iff k j), ground (arith, lookup-put k j v m))
  ]

  pub lookup-erase_ne : (k j : K) (m : List (K × V)) → k ≢ j → lookup j (erase k m) ≡ lookup j m
  lookup-erase_ne k j m h = ground (arith, e.beq_iff k j, lookup-erase k j m)

  pub lookup-erase-some :
      (k j : K) (w : V) (m : List (K × V))
      → lookup j (erase k m) ≡ some w
      → (k ≢ j) × (lookup j m ≡ some w)
  lookup-erase-some k j w m h =
      (ground (arith, e.beq_iff k j, lookup-erase k j m), ground (arith, lookup-erase k j m))

  -- A `Map` has one entry for each key.
  abbrev pub HasDistinctKeys : List (K × V) → Type 0
  HasDistinctKeys [] = Unit
  HasDistinctKeys ((k, v) ∷ m) = (lookup k m ≡ none) × HasDistinctKeys m

  pub put-HasDistinctKeys :
      (k : K) (v : V) (m : List (K × V)) → HasDistinctKeys m → HasDistinctKeys (put k v m)
  unfolding lookup put
  put-HasDistinctKeys k v [] h = (refl, tt)
  put-HasDistinctKeys k v ((j, w) ∷ m) h =
      ground
        (arith, e.beq_iff j k, e.beq_iff k j, lookup-put k j v m, put-HasDistinctKeys k v m h.1)

  pub erase-HasDistinctKeys :
      (k : K) (m : List (K × V)) → HasDistinctKeys m → HasDistinctKeys (erase k m)
  unfolding erase
  erase-HasDistinctKeys k [] h = tt
  erase-HasDistinctKeys k ((j, w) ∷ m) h =
      ground (arith, lookup-erase k j m, erase-HasDistinctKeys k m h.1)

  -- So each entry is the one that `get` finds.
  pub HasDistinctKeys-entries :
      (m : List (K × V)) → HasDistinctKeys m → All (λ entry. lookup entry.0 m ≡ some entry.1) m
  unfolding lookup
  HasDistinctKeys-entries [] h = tt
  HasDistinctKeys-entries ((k, v) ∷ m) (absent, h) = (
    ground (arith, e.beq_iff k k),
    All-map m (λ entry found. ground (arith, e.beq_iff k entry.0)) (HasDistinctKeys-entries m h),
  )

-- `[...map.values()]`.
abbrev pub values : {K V : Type 0} → List (K × V) → List V
values m = map (λ entry. entry.1) m
