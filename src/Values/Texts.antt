-- ===== src/Values/Texts.antt =====
-- About the texts that `opaqueText` makes.
use Prim.Native.Char.{Char, code}
use counterpoint_living_deci.Base.{
  ==_iff, Bool-cases, String, ap, arith, false, inl, inr, nat_eq, ok, option_eq, refl, string_eq,
  sym, ◌==◌, ◌∙◌, ◌≡◌, ◌≢◌,
}
use counterpoint_living_deci.Values.{cons_end, is_space, opaque_text, trim, trim_end, trim_start}

-- The text does not begin with white space.
abbrev IsStarted : String → Type 0
IsStarted String.[] = Unit
IsStarted (String.◌∷◌ c s) = is_space (code c) ≡ false

trim_start-IsStarted : (s : String) → IsStarted (trim_start s)
unfolding trim_start
trim_start-IsStarted String.[] = tt
trim_start-IsStarted (String.◌∷◌ c s) = elim (Bool-cases (is_space (code c))) [
  | inl e ↦ rw e (trim_start-IsStarted s)
  | inr e ↦ rw e e
]

trim_start-fix : (s : String) → IsStarted s → trim_start s ≡ s
unfolding trim_start
trim_start-fix String.[] h = refl
trim_start-fix (String.◌∷◌ c s) h = rw h refl

cons_end-fix :
    (c : Char) (r : String)
    → trim_end r ≡ r
    → trim_end (cons_end (code c) (String.◌∷◌ c r) r) ≡ cons_end (code c) (String.◌∷◌ c r) r
unfolding trim_end cons_end
cons_end-fix c String.[] h = elim (Bool-cases (is_space (code c))) [
  | inl e ↦ rw e refl
  | inr e ↦ rw e (rw e refl)
]
cons_end-fix c (String.◌∷◌ d s) h = ap (λ r. cons_end (code c) (String.◌∷◌ c r) r) h

trim_end_idem : (s : String) → trim_end (trim_end s) ≡ trim_end s
unfolding trim_end cons_end
trim_end_idem String.[] = refl
trim_end_idem (String.◌∷◌ c s) = cons_end-fix c (trim_end s) (trim_end_idem s)

cons_end-IsStarted :
    (c : Char) (r : String)
    → is_space (code c) ≡ false
    → IsStarted (cons_end (code c) (String.◌∷◌ c r) r)
unfolding cons_end
cons_end-IsStarted c String.[] h = rw h h
cons_end-IsStarted c (String.◌∷◌ d s) h = h

trim_end-IsStarted : (s : String) → IsStarted s → IsStarted (trim_end s)
unfolding trim_end cons_end
trim_end-IsStarted String.[] h = tt
trim_end-IsStarted (String.◌∷◌ c s) h = cons_end-IsStarted c (trim_end s) h

trim_idem : (s : String) → trim (trim s) ≡ trim s
unfolding trim
trim_idem s =
    let started = trim_end-IsStarted (trim_start s) (trim_start-IsStarted s) in
    ap trim_end (trim_start-fix (trim_end (trim_start s)) started) ∙ trim_end_idem (trim_start s)

-- The result is not empty, and the function accepts it again and leaves it as it is.
pub opaque_text_idem :
    (value t : String) → opaque_text value ≡ ok t → (t ≢ "") × (opaque_text t ≡ ok t)
unfolding opaque_text
opaque_text_idem value t h =
    let same : trim value ≡ t = ground arith in
    let fixed : trim t ≡ t = ap trim (sym same) ∙ trim_idem value ∙ same in
    let full : (t == "") ≡ false = ground (arith, same) in
    ((λ e. ground (arith, ==_iff t "")), rw fixed (rw full refl))
