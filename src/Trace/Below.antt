-- ===== src/Trace/Below.antt =====
-- `__darwintrace_pathbeginswith` of base/src/darwintracelib1.0/darwintrace.c against the components of
-- paths.
use macports.Prelude.{
  ℕ, ◌≡◌, ◌≢◌, ◌<◌, refl, sym, ◌∙◌, ap, [], ◌∷◌, ◌++◌, Bytes, Bool, true, ◌==◌, ◌&&◌, ◌||◌, arith,
  codes, subst, false≢true, ◌↔◌, ◌⊎◌, inl, inr, Bool-cases,
}
use macports.Prelude.Text.{NoNull}
use macports.Trace.Rules.{begins_with, path_begins_with}

-- A path is a prefix itself, or below it.
abbrev pub IsBelow : Bytes → Bytes → Type 0
IsBelow prefix path = (path ≡ prefix) ⊎ ((rest : Bytes) × (path ≡ prefix ++ b'/' ∷ rest))

slash_first : (s : ℕ) → 0 < s → (s == b'/' || s == 0) ≡ true → s ≡ b'/'
slash_first s h e = ground arith

and_both : (p s : ℕ) (b : Bool) → (p == s && b) ≡ true → (p ≡ s) × (b ≡ true)
and_both p s b e = (ground arith, ground arith)

cons-IsBelow : (p : ℕ) (prefix path : Bytes) → IsBelow prefix path → IsBelow (p ∷ prefix) (p ∷ path)
cons-IsBelow p prefix path (inl e) = inl (ap (λ s. p ∷ s) e)
cons-IsBelow p prefix path (inr (rest, e)) = inr (rest, ap (λ s. p ∷ s) e)

begins-IsBelow :
    (path prefix : Bytes) → NoNull path → begins_with path prefix ≡ true → IsBelow prefix path
unfolding begins_with
begins-IsBelow [] [] h e = inl refl
begins-IsBelow (s ∷ path) [] h e = inr (path, ap (λ x. x ∷ path) (slash_first s h.0 e))
begins-IsBelow [] (p ∷ prefix) h e = absurd (false≢true e)
begins-IsBelow (s ∷ path) (p ∷ prefix) h e =
    let both = and_both p s (begins_with path prefix) e in
    subst (λ x. IsBelow (p ∷ prefix) (x ∷ path)) both.0
      (cons-IsBelow p prefix path (begins-IsBelow path prefix h.1 both.1))

begins_self : (s : Bytes) → begins_with s s ≡ true
unfolding begins_with
begins_self [] = refl
begins_self (c ∷ s) = rw (begins_self s) (ground arith)

begins-append : (s rest : Bytes) → begins_with (s ++ b'/' ∷ rest) s ≡ true
unfolding begins_with
begins-append [] rest = refl
begins-append (c ∷ s) rest = rw (begins-append s rest) (ground arith)

below-begins : (path prefix : Bytes) → IsBelow prefix path → begins_with path prefix ≡ true
below-begins path prefix (inl e) = ap (λ s. begins_with s prefix) e ∙ begins_self prefix
below-begins path prefix (inr (rest, e)) =
    ap (λ s. begins_with s prefix) e ∙ begins-append prefix rest

slash_of : (p : ℕ) → (p == b'/') ≡ true → p ≡ b'/'
slash_of p e = ground arith

path-begins :
    (path prefix : Bytes)
    → prefix ≢ []
    → prefix ≢ codes "/"
    → path_begins_with path prefix ≡ begins_with path prefix
unfolding path_begins_with
path-begins path [] h k = absurd (h refl)
path-begins path (p ∷ []) h k = elim (Bool-cases (p == b'/')) [
  | inl e ↦ absurd (k (ap (λ x. x ∷ []) (slash_of p e)))
  | inr e ↦ rw e refl
]
path-begins path (p ∷ q ∷ prefix) h k = refl

-- A path begins with a prefix, other than the empty one and the root, just where it is the prefix or
-- has a slash behind it: "/opt/local" is no prefix of "/opt/localx".
pub path_begins_with-IsBelow :
    (path prefix : Bytes)
    → NoNull path
    → prefix ≢ []
    → prefix ≢ codes "/"
    → (path_begins_with path prefix ≡ true) ↔ IsBelow prefix path
path_begins_with-IsBelow path prefix h ne root = (
  λ e. begins-IsBelow path prefix h (sym (path-begins path prefix ne root) ∙ e),
  λ b. path-begins path prefix ne root ∙ below-begins path prefix b,
)
