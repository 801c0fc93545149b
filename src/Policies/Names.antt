-- ===== src/Policies/Names.antt =====
-- When requireName of contracts/policies.ts accepts: `trim` described by the ends of the text.
use mathlib.Core.List.{reverse_aux, reverse-reverse}
use bettter_nest_mq.Prelude.{
  inl, inr, ◌+◌, ◌≤◌, ◌≡◌, ◌≢◌, ◌↔◌, refl, ap, false, [], ◌∷◌, reverse, Text, trim, trim_start,
  is_space, text_eq_sound, text_eq_refl, length, ok, arith, Bool-cases,
}
use bettter_nest_mq.Policies.{require_name}

-- The text does not begin with a white-space unit.
abbrev pub StartsClean : Text → Type 0
StartsClean [] = Unit {0}
StartsClean (c ∷ s) = is_space c ≡ false

-- Not empty, and no white space at either end.
abbrev pub IsName : Text → Type 0
IsName s = (s ≢ []) × StartsClean s × StartsClean (reverse s)

length-reverse_aux : (s t : Text) → length (reverse_aux s t) ≡ length s + length t
length-reverse_aux [] t = omega arith
length-reverse_aux (c ∷ s) t = omega (arith, length-reverse_aux s (c ∷ t))

length-reverse : (s : Text) → length (reverse s) ≡ length s
length-reverse s = omega (arith, length-reverse_aux s [])

length-trim_start : (s : Text) → length (trim_start s) ≤ length s
unfolding trim_start
length-trim_start [] = omega arith
length-trim_start (c ∷ s) = ground (arith, length-trim_start s)

trim_start-eq_of_StartsClean : (s : Text) → StartsClean s → trim_start s ≡ s
unfolding trim_start
trim_start-eq_of_StartsClean [] h = refl
trim_start-eq_of_StartsClean (c ∷ s) h = rw (h, trim_start)

StartsClean-of_length : (s : Text) → length s ≤ length (trim_start s) → StartsClean s
unfolding trim_start
StartsClean-of_length [] h = tt
StartsClean-of_length (c ∷ s) h = elim (Bool-cases (is_space c)) [
  | inl space ↦ absurd (ground (arith, length-trim_start s))
  | inr clean ↦ clean
]

length-trim : (s : Text) → length (trim s) ≤ length (trim_start (reverse (trim_start s)))
unfolding trim
length-trim s = omega (arith, length-reverse (trim_start (reverse (trim_start s))))

trim-eq_of_clean : (s : Text) → StartsClean s → StartsClean (reverse s) → trim s ≡ s
unfolding trim
trim-eq_of_clean s h k =
    rw (trim_start-eq_of_StartsClean s h, trim_start-eq_of_StartsClean (reverse s) k)
      (reverse-reverse s)

clean_of_trim-eq : (s : Text) → trim s ≡ s → StartsClean s × StartsClean (reverse s)
clean_of_trim-eq s e =
    let n : length (trim s) ≡ length s = ap length e in
    let m : length s ≤ length (trim_start (reverse (trim_start s))) =
      omega (arith, length-trim s) in
    let start : StartsClean s =
      StartsClean-of_length s (
        omega (arith, length-trim_start (reverse (trim_start s)), length-reverse (trim_start s))) in
    let same : trim_start s ≡ s = trim_start-eq_of_StartsClean s start in
    let m' : length s ≤ length (trim_start (reverse s)) = rw same at m in
    (start, StartsClean-of_length (reverse s) (omega (arith, length-reverse s)))

-- requireName accepts exactly the texts that are not empty and have no white space at an end.
pub require_name_iff : (s : Text) → (require_name s ≡ ok tt) ↔ IsName s
unfolding require_name
require_name_iff [] = (λ e. absurd (cc e), λ h. absurd (h.0 refl))
require_name_iff (c ∷ s) = (
  λ e.
      let k : StartsClean (c ∷ s) × StartsClean (reverse (c ∷ s)) =
        clean_of_trim-eq (c ∷ s) (text_eq_sound _ _ (ground arith)) in
      (λ q. cc q, k.0, k.1),
  λ h. rw (trim-eq_of_clean (c ∷ s) h.1 h.2, text_eq_refl (c ∷ s)) (ground arith),
)
