-- ===== src/Filemap/Listing/Spelling.antt =====
-- How filemap.c reads the paths that its listing builds: a key, a slash and the rest.
use macports.Prelude.{
  ℕ, ◌≡◌, refl, sym, ap, ◌∙◌, [], ◌∷◌, ◌++◌, Bytes, All, none, some, append_assoc, append-nil,
  arith,
}
use macports.Filemap.Path.{file, dir, walk, parse_path, slash}
use macports.Filemap.Keys.{IsKey, IsKeyChar}

pub walk-char :
    (part : Bytes) (c : ℕ) (s : Bytes)
    → IsKeyChar c
    → walk (some part) (c ∷ s) ≡ walk (some (part ++ c ∷ [])) s
unfolding walk
walk-char part c s h = ground arith

pub walk-key : (part k : Bytes) → All IsKeyChar k → walk (some part) k ≡ file (part ++ k)
walk-key part [] h = unfold walk in ap file (sym (append-nil part))
walk-key part (c ∷ k) h =
    walk-char part c k h.0
    ∙ walk-key (part ++ c ∷ []) k h.1
    ∙ ap file (append_assoc part (c ∷ []) k)

pub walk-key_slash :
    (part k s : Bytes)
    → All IsKeyChar k
    → walk (some part) (k ++ slash ∷ s) ≡ dir (part ++ k) (walk none s)
walk-key_slash part [] s h = unfold walk in ap (λ p. dir p (walk none s)) (sym (append-nil part))
walk-key_slash part (c ∷ k) s h =
    walk-char part c (k ++ slash ∷ s) h.0
    ∙ walk-key_slash (part ++ c ∷ []) k s h.1
    ∙ ap (λ p. dir p (walk none s)) (append_assoc part (c ∷ []) k)

pub walk-first : (c : ℕ) (s : Bytes) → IsKeyChar c → walk none (c ∷ s) ≡ walk (some (c ∷ [])) s
unfolding walk
walk-first c s h = ground arith

-- A key alone names a file, and a key before a slash names a directory.
pub parse-key : (k : Bytes) → IsKey k → parse_path k ≡ file k
unfolding parse_path
parse-key [] h = absurd (omega (arith, h.non_empty))
parse-key (c ∷ k) h = walk-first c k h.chars.0 ∙ walk-key (c ∷ []) k h.chars.1

pub parse-key_slash : (k s : Bytes) → IsKey k → parse_path (k ++ slash ∷ s) ≡ dir k (parse_path s)
unfolding parse_path
parse-key_slash [] s h = absurd (omega (arith, h.non_empty))
parse-key_slash (c ∷ k) s h =
    walk-first c (k ++ slash ∷ s) h.chars.0 ∙ walk-key_slash (c ∷ []) k s h.chars.1

pub parse-slash : (s : Bytes) → parse_path (slash ∷ s) ≡ parse_path s
unfolding parse_path
parse-slash s = unfold walk in refl
