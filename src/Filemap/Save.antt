-- ===== src/Filemap/Save.antt =====
-- `Save` and `SaveNode` of base/src/pextlib1.0/filemap.c. What the operating system answers to each
-- call is an argument.
use macports.Prelude.{
  if◌then◌else◌, ◌==◌, ℕ, suc, ◌+◌, ◌/◌, ◌%◌, ◌^◌, [], ◌∷◌, ◌++◌, Bytes, take, Option, none, some,
}
use macports.Filemap.Types.{SHeader, leaf, node, Subnodes, nil, cons, Code, no_error, errno}

-- What write(2) does with one buffer: it takes the whole of it, or stops after some bytes, and then
-- errno is a given number.
pub data Fate : Type 0 where
  whole : Fate
  short : ℕ → ℕ → Fate

-- The temporary file: the calls of write(2) so far, and the contents.
pub record Out : Type 0 where
  pub calls : ℕ
  pub written : Bytes

-- The code that a function returns which took errno as its result: an errno of 0 reads as success.
abbrev pub error_code : Code → Code
error_code (errno e) = if e == 0 then no_error else errno e
error_code code = code

abbrev pub returned : Code × Out → Code × Out
returned (code, out) = (error_code code, out)

-- A sequence of writes that stops at the first error.
abbrev pub Writer : Type 0
Writer = Out → Code × Out

infixl 5 ◌>>◌
abbrev pub ◌>>◌ : Writer → Writer → Writer
◌>>◌ m k out = let (code, out') = m out in elim code [ no_error ↦ k out' | e ↦ (e, out') ]

-- `kNode` and `kLeaf`
abbrev pub kind_node : ℕ
kind_node = 0

abbrev pub kind_leaf : ℕ
kind_leaf = 1

-- `theSubnodesCountAsBytes`
abbrev pub count_bytes : ℕ → Bytes
count_bytes n = (n / 2 ^ 24 % 256) ∷ (n / 2 ^ 16 % 256) ∷ (n / 2 ^ 8 % 256) ∷ (n % 256) ∷ []

-- `fSubnodesCount`
abbrev pub count : Subnodes → ℕ
count nil = 0
count (cons h t) = suc (count t)

module _ (fate : ℕ → Fate) where
  unfoldable pub write : Bytes → Writer
  write b out = elim (fate out.calls) [
    | whole ↦ (no_error, record { calls = out.calls + 1; written = out.written ++ b })
    | short n e ↦ (errno e, record { calls = out.calls + 1; written = out.written ++ take n b })
  ]

  unfoldable mutual
    pub save_node : SHeader → Writer
    save_node (leaf key value) out =
        returned ((write (kind_leaf ∷ []) >> write (key ++ 0 ∷ []) >> write (value ++ 0 ∷ [])) out)
    save_node (node key subs) out = returned (
        (write (kind_node ∷ [])
            >> write (key ++ 0 ∷ [])
            >> write (count_bytes (count subs))
            >> (λ o. save_subnodes subs o))
          out)

    pub save_subnodes : Subnodes → Writer
    save_subnodes nil out = (no_error, out)
    save_subnodes (cons h t) out = ((λ o. save_node h o) >> (λ o. save_subnodes t o)) out

-- `kFilemapSignature` with its terminator, and `kFilemapVersion`.
abbrev pub signature : Bytes
signature =
    b'o' ∷ b'r' ∷ b'g' ∷ b'.' ∷ b'd' ∷ b'a' ∷ b'r' ∷ b'w' ∷ b'i' ∷ b'n' ∷ b'p' ∷ b'o' ∷ b'r' ∷ b't'
    ∷ b's' ∷ b'.' ∷ b'f' ∷ b'i' ∷ b'l' ∷ b'e' ∷ b'm' ∷ b'a' ∷ b'p' ∷ 0 ∷ []

abbrev pub version : Bytes
version = 0 ∷ 1 ∷ 0 ∷ 0 ∷ []

-- The two files that `Save` and `Load` touch: the database, and the temporary file beside it.
pub record Disk : Type 0 where
  pub database : Option Bytes
  pub temporary : Option Bytes

-- The answers of open(2), write(2) and rename(2): an errno where the call fails.
pub record SaveCalls : Type 0 where
  pub open_temporary : Option ℕ
  pub fate : ℕ → Fate
  pub rename : Option ℕ

unfoldable pub save_tree : (ℕ → Fate) → Subnodes → Writer
save_tree fate tree = write fate signature >> write fate version >> save_node fate (node [] tree)

-- What `Save` does once the writes have ended: on success the temporary file takes the place of
-- the database.
unfoldable pub finish_save : SaveCalls → Disk → Code × Out → Code × Disk
finish_save os disk (no_error, out) = elim os.rename [
  | none ↦ (no_error, record { database = some out.written; temporary = none })
  | some e ↦ (errno e, record disk { temporary = some out.written })
]
finish_save os disk (code, out) = (error_code code, record disk { temporary = some out.written })

unfoldable pub save : SaveCalls → Subnodes → Disk → Code × Disk
save os tree disk = elim os.open_temporary [
  | some e ↦ (errno e, disk)
  | none ↦ finish_save os disk (save_tree os.fate tree (record { calls = 0; written = [] }))
]
