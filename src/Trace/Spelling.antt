-- ===== src/Trace/Spelling.antt =====
-- The spelling of a list of bounds in base/src/port1.0/porttrace.tcl, and the form that tracelib.c
-- makes of it and darwintrace.c reads.
use macports.Prelude.{
  ℕ, ◌≡◌, ◌≢◌, refl, ◌∙◌, ap, [], ◌∷◌, ◌++◌, List, Bytes, true, false, ◌||◌, ◌==◌, if◌then◌else◌,
  append_assoc, Bool-cases, inl, inr, arith,
}
use macports.Prelude.Text.{NoNull, c_string-append}
use macports.Trace.Sandbox.{
  filemap_allow, filemap_ask, filemap_deny, normal, on_char, Written, written, refused, after_byte,
  scan,
}
use macports.Trace.Rules.{finished, entry, filemap_iter, on_command}

pub data Action : Type 0 where
  allow ask deny : Action

-- A bound of the sandbox: a path and what happens to accesses below it.
abbrev pub Rule : Type 0
Rule = Bytes × Action

abbrev pub code : Action → ℕ
code allow = filemap_allow
code ask = filemap_ask
code deny = filemap_deny

abbrev sign : Action → ℕ
sign allow = b'+'
sign ask = b'?'
sign deny = b'-'

-- A path with backslashes before the backslashes, colons and equal signs.
unfoldable pub escaped : Bytes → Bytes
escaped [] = []
escaped (c ∷ s) =
    if c == b'\\' || (c == b':' || c == b'=') then b'\\' ∷ c ∷ escaped s else c ∷ escaped s

-- The rules, joined by colons.
unfoldable pub spell : Rule → List Rule → Bytes
unfolding escaped
spell (path, a) [] = escaped path ++ b'=' ∷ sign a ∷ []
spell (path, a) (r ∷ rules) = escaped path ++ b'=' ∷ sign a ∷ b':' ∷ spell r rules

-- The form that darwintrace reads.
unfoldable pub encode : List Rule → Bytes
encode [] = 0 ∷ []
encode ((path, a) ∷ rules) = path ++ 0 ∷ code a ∷ 0 ∷ encode rules

abbrev prepend : Bytes → Written → Written
prepend p (written out) = written (p ++ out)
prepend p (refused r) = refused r

after-prepend : (c : ℕ) (p : Bytes) (w : Written) → after_byte c (prepend p w) ≡ prepend (c ∷ p) w
after-prepend c p (written out) = refl
after-prepend c p (refused r) = refl

prepend_nil : (w : Written) → w ≡ prepend [] w
prepend_nil (written out) = refl
prepend_nil (refused r) = refl

-- A plain character, and one behind a backslash, is kept.
scan-plain :
    (c : ℕ) (s : Bytes)
    → (c == b'\\' || (c == b':' || c == b'=')) ≡ false
    → scan normal (c ∷ s) ≡ after_byte c (scan normal s)
unfolding scan on_char
scan-plain c s h = ground (arith, h)

scan-quoted :
    (c : ℕ) (s : Bytes)
    → (c == b'\\' || (c == b':' || c == b'=')) ≡ true
    → scan normal (b'\\' ∷ c ∷ s) ≡ after_byte c (scan normal s)
unfolding scan on_char
scan-quoted c s h = ground (arith, h)

scan-escaped : (p s : Bytes) → scan normal (escaped p ++ s) ≡ prepend p (scan normal s)
unfolding escaped
scan-escaped [] s = prepend_nil (scan normal s)
scan-escaped (c ∷ p) s = elim (Bool-cases (c == b'\\' || (c == b':' || c == b'='))) [
  | inl e ↦ rw e (
      scan-quoted c (escaped p ++ s) e
      ∙ ap (after_byte c) (scan-escaped p s)
      ∙ after-prepend c p (scan normal s))
  | inr e ↦ rw e (
      scan-plain c (escaped p ++ s) e
      ∙ ap (after_byte c) (scan-escaped p s)
      ∙ after-prepend c p (scan normal s))
]

scan-last : (a : Action) → scan normal (b'=' ∷ sign a ∷ []) ≡ written (0 ∷ code a ∷ 0 ∷ 0 ∷ [])
unfolding scan on_char
scan-last allow = refl
scan-last ask = refl
scan-last deny = refl

scan-inner :
    (a : Action) (s out : Bytes)
    → scan normal s ≡ written out
    → scan normal (b'=' ∷ sign a ∷ b':' ∷ s) ≡ written (0 ∷ code a ∷ 0 ∷ out)
unfolding scan on_char
scan-inner allow s out h = rw h
scan-inner ask s out h = rw h
scan-inner deny s out h = rw h

-- `TracelibSetSandboxCmd` turns the spelling of every list of bounds into their encoded form, whatever
-- characters the paths have.
pub scan-spell :
    (r : Rule) (rules : List Rule) → scan normal (spell r rules) ≡ written (encode (r ∷ rules))
unfolding spell encode
scan-spell (path, a) [] = scan-escaped path _ ∙ ap (prepend path) (scan-last a)
scan-spell (path, a) (r ∷ rules) =
    scan-escaped path _ ∙ ap (prepend path) (scan-inner a (spell r rules) _ (scan-spell r rules))

-- A path that an entry can have: the iterator ends at an empty one.
abbrev pub IsBound : Rule → Type 0
IsBound (path, a) = NoNull path × (path ≢ [])

pub iter-encode_nil : (rest : Bytes) → filemap_iter (encode [] ++ rest) ≡ finished
unfolding filemap_iter encode
iter-encode_nil rest = refl

iter-entry :
    (path rest : Bytes) (a : Action)
    → NoNull path
    → path ≢ []
    → filemap_iter (path ++ 0 ∷ code a ∷ 0 ∷ rest) ≡ entry path (code a) rest
unfolding filemap_iter on_command
iter-entry [] rest a h ne = absurd (ne refl)
iter-entry (c ∷ path) rest allow h ne =
    ground (arith, h.0, c_string-append (c ∷ path) (0 ∷ 0 ∷ rest) h)
iter-entry (c ∷ path) rest ask h ne =
    ground (arith, h.0, c_string-append (c ∷ path) (2 ∷ 0 ∷ rest) h)
iter-entry (c ∷ path) rest deny h ne =
    ground (arith, h.0, c_string-append (c ∷ path) (3 ∷ 0 ∷ rest) h)

pub iter-encode :
    (path : Bytes) (a : Action) (rules : List Rule) (rest : Bytes)
    → IsBound (path, a)
    → filemap_iter (encode ((path, a) ∷ rules) ++ rest) ≡ entry path (code a) (encode rules ++ rest)
unfolding encode
iter-encode path a rules rest h =
    ap filemap_iter (append_assoc path (0 ∷ code a ∷ 0 ∷ encode rules) rest)
    ∙ iter-entry path (encode rules ++ rest) a h.0 h.1
