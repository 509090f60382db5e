-- ===== src/Base/Run.antt =====
-- Code that reads and writes a state and may throw, as statements in a row; a throw keeps what was
-- written before it.
use mathlib.Core.Path.{◌≡◌, refl}
use mathlib.Core.Logic.{◌⊎◌, inl, inr}
use mathlib.Core.Bool.{Bool, true, false}
use Prim.Native.Nat.{ℕ}
use open_log_tool_server.Base.Outcome.{
  Result, ok, err, Fault, app_error, Code, Outcome, done, raised,
}

abbrev pub Run : Type 0 → Type 0 → Type 0
Run S A = S → Outcome S A

-- What follows a run that has ended.
unfoldable pub continue : {S A B : Type 0} → Outcome S A → (A → Run S B) → Outcome S B
continue (done a s) next = next a s
continue (raised fault s) next = raised fault s

infixl 5 ◌>>=◌ ◌>>◌
abbrev pub ◌>>=◌ : {S A B : Type 0} → Run S A → (A → Run S B) → Run S B
(first >>= next) s = continue (first s) next

abbrev pub ◌>>◌ : {S B : Type 0} → Run S (Unit {0}) → Run S B → Run S B
(first >> next) s = continue (first s) (λ _. next)

abbrev pub return : {S A : Type 0} → A → Run S A
return a s = done a s

-- `throw new AppError(status, code)`.
abbrev pub throw : {S A : Type 0} → ℕ → Code → Run S A
throw status code s = raised (app_error status code) s

abbrev pub end_with : {S A : Type 0} → Result A → Run S A
end_with (ok a) s = done a s
end_with (err fault) s = raised fault s

-- A check or a conversion that reads this much of the state.
unfoldable pub reading : {S A : Type 0} → (S → Result A) → Run S A
reading r s = end_with (r s) s

abbrev pub read : {S A : Type 0} → (S → A) → Run S A
read f s = done (f s) s

abbrev pub write : {S : Type 0} → (S → S) → Run S (Unit {0})
write f s = done tt (f s)

-- `if (!condition) throw`.
unfoldable pub demand : {S : Type 0} → Bool → ℕ → Code → Run S (Unit {0})
demand true status code s = done tt s
demand false status code s = raised (app_error status code) s

-- `if (condition) …`.
unfoldable pub when : {S : Type 0} → Bool → Run S (Unit {0}) → Run S (Unit {0})
when true run s = run s
when false run s = done tt s

-- When statements in a row return, the first of them has.
pub continue-eq-done :
    {S A B : Type 0} (o : Outcome S A) (next : A → Run S B) {b : B} {s' : S}
    → continue o next ≡ done b s'
    → (a : A) × (s1 : S) × (o ≡ done a s1) × (next a s1 ≡ done b s')
unfolding continue
continue-eq-done (done a s) next h = (a, s, refl, h)
continue-eq-done (raised fault s) next h = cc

end_with-eq-done :
    {S A : Type 0} (q : Result A) (s : S) {a : A} {s' : S}
    → end_with q s ≡ done a s'
    → (q ≡ ok a) × (s' ≡ s)
end_with-eq-done (ok b) s h = (cc h, cc h)
end_with-eq-done (err fault) s h = cc

pub reading-eq-done :
    {S A : Type 0} (r : S → Result A) (s : S) {a : A} {s' : S}
    → reading r s ≡ done a s'
    → (r s ≡ ok a) × (s' ≡ s)
unfolding reading
reading-eq-done r s h = end_with-eq-done (r s) s h

pub demand-eq-done :
    {S : Type 0} (b : Bool) (status : ℕ) (code : Code) (s : S) {u : Unit {0}} {s' : S}
    → demand b status code s ≡ done u s'
    → (b ≡ true) × (s' ≡ s)
unfolding demand
demand-eq-done true status code s h = (refl, cc h)
demand-eq-done false status code s h = cc

abbrev pub returned : {S A : Type 0} → Outcome S A → Bool
returned (done a s) = true
returned (raised fault s) = false

-- Statements under an `if` that end by a throw have not been reached.
pub when-eq-done :
    {S : Type 0} (b : Bool) (run : Run S (Unit {0})) (s : S) {u : Unit {0}} {s' : S}
    → returned (run s) ≡ false
    → when b run s ≡ done u s'
    → (b ≡ false) × (s' ≡ s)
unfolding when
when-eq-done true run s never h = cc
when-eq-done false run s never h = (refl, cc h)

-- Statements that end by a throw.
pub continue-throws :
    {S A B : Type 0} (o : Outcome S A) (next : A → Run S B)
    → ((a : A) (s : S) → returned (next a s) ≡ false)
    → returned (continue o next) ≡ false
unfolding continue
continue-throws (done a s) next h = h a s
continue-throws (raised fault s) next h = refl

module _ {S A B : Type 0} (next : A → Run S B) (s : S) {b : B} {s' : S} where
  -- The statement after a check that has passed runs in the same state.
  pub continue-reading :
      (r : S → Result A)
      → continue (reading r s) next ≡ done b s'
      → (a : A) × (r s ≡ ok a) × (next a s ≡ done b s')
  continue-reading r h =
      let (a, s1, first, last) = continue-eq-done (reading r s) next h in
      let (passed, same) = reading-eq-done r s first in (a, passed, rw same at last)

module _ {S B : Type 0} (next : Unit {0} → Run S B) (s : S) {b : B} {s' : S} where
  pub continue-when :
      (c : Bool) (run : Run S (Unit {0}))
      → returned (run s) ≡ false
      → continue (when c run s) next ≡ done b s'
      → (c ≡ false) × (next tt s ≡ done b s')
  continue-when c run never h =
      let (u, s1, first, last) = continue-eq-done (when c run s) next h in
      let (off, same) = when-eq-done c run s never first in (off, rw same at last)

  pub continue-demand :
      (c : Bool) (status : ℕ) (code : Code)
      → continue (demand c status code s) next ≡ done b s'
      → (c ≡ true) × (next tt s ≡ done b s')
  continue-demand c status code h =
      let (u, s1, first, last) = continue-eq-done (demand c status code s) next h in
      let (on, same) = demand-eq-done c status code s first in (on, rw same at last)

pub done-injective : {S A : Type 0} {a b : A} {s t : S} → done a s ≡ done b t → (a ≡ b) × (s ≡ t)
done-injective h = (cc h, cc h)

pub Outcome-cases :
    {S A : Type 0} (o : Outcome S A)
    → ((a : A) × (s : S) × (o ≡ done a s)) ⊎ ((fault : Fault) × (s : S) × (o ≡ raised fault s))
Outcome-cases (done a s) = inl (a, s, refl)
Outcome-cases (raised fault s) = inr (fault, s, refl)

-- A check that passes.
pub continue-reading_ok :
    {S A B : Type 0} (r : S → Result A) (next : A → Run S B) (s : S) (a : A)
    → r s ≡ ok a
    → continue (reading r s) next ≡ next a s
unfolding continue reading
continue-reading_ok r next s a h = rw h refl
