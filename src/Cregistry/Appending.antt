-- ===== src/Cregistry/Appending.antt =====
-- Many calls of `reg_strcat` and `reg_listcat` of base/src/cregistry/util.c in a row.
use macports.Prelude.{
  ℕ, suc, ◌+◌, ◌*◌, ◌^◌, ◌≡◌, ◌<◌, ◌≤◌, refl, sym, ◌∙◌, ap, subst, [], ◌∷◌, ◌++◌, List, Bytes, Bool,
  true, false, if◌then◌else◌, length, ltb, Option, none, some, arith, append-nil, append_assoc,
  length-append, ◌⊎◌, inl, inr, Bool-cases,
}
use native.Mathlib.Nat.{pow-succ', mul_assoc, mul-le-mul_right}
use macports.Cregistry.Growth.{
  RegString, grown, space_for, reg_strcat, RegList, room_for, reg_listcat,
}
use macports.Cregistry.Objects.{
  Answer, row, done, busy, failed, Selected, objects, deletes, waiting, overrun, step_rows,
  reg_all_objects,
}

unfoldable pub strcat_all : List Bytes → RegString → Option RegString
strcat_all [] dst = some dst
strcat_all (src ∷ srcs) dst = elim (reg_strcat dst src) [
  | none ↦ none
  | some dst' ↦ strcat_all srcs dst'
]

unfoldable pub concat : List Bytes → Bytes
concat [] = []
concat (src ∷ srcs) = src ++ concat srcs

-- How often memory is allocated again.
unfoldable pub reallocs : List Bytes → RegString → ℕ
reallocs [] dst = 0
reallocs (src ∷ srcs) dst =
    let result = length dst.text + length src in
    let rest =
      reallocs srcs (record { text = dst.text ++ src; space = space_for dst.space result }) in
    if ltb dst.space result then suc rest else rest

pub strcat-fits :
    (dst : RegString) (src : Bytes)
    → length dst.text ≤ dst.space
    → (reg_strcat dst src
        ≡ some (record {
          text = dst.text ++ src;
          space = space_for dst.space (length dst.text + length src);
        }))
unfolding reg_strcat space_for
strcat-fits dst src h = ground (arith, h)

pub space_for-le : (space result : ℕ) → result ≤ space_for space result
unfolding space_for
space_for-le space result = ground arith

grown_le : (space result : ℕ) → space * 2 ≤ grown space result
grown_le space result = ground arith

space_for-grows :
    (space result rest : ℕ)
    → space * 2 ^ (if ltb space result then suc rest else rest) ≤ space_for space result * 2 ^ rest
unfolding space_for
space_for-grows space result rest = go (ltb space result) (grown_le space result)
  where
    go :
        (b : Bool)
        → space * 2 ≤ grown space result
        → space * 2 ^ (if b then suc rest else rest)
          ≤ (if b then grown space result else space) * 2 ^ rest
    go true h =
        subst (λ n. n ≤ grown space result * 2 ^ rest)
          (mul_assoc space 2 (2 ^ rest) ∙ ap (λ n. space * n) (sym (pow-succ' 2 rest)))
          (mul-le-mul_right (2 ^ rest) h)
    go false h = omega arith

abbrev pub appended : RegString → Bytes → RegString
appended dst src = record {
  text = dst.text ++ src;
  space = space_for dst.space (length dst.text + length src);
}

length-text :
    (dst : RegString) (src : Bytes) (srcs : List Bytes) (dst' : RegString)
    → dst'.text ≡ (dst.text ++ src) ++ concat srcs
    → length dst.text + length src ≤ length dst'.text
length-text dst src srcs dst' t = omega (
  arith,
  ap (λ s. length s) t,
  length-append (dst.text ++ src) (concat srcs),
  length-append dst.text src,
)

space_bound :
    (dst : RegString) (src : Bytes) (dst' : RegString)
    → length dst.text ≤ dst.space
    → length dst.text + length src ≤ length dst'.text
    → ((dst'.space ≡ (appended dst src).space) ⊎ (dst'.space ≤ length dst'.text * 2))
    → ((dst'.space ≡ dst.space) ⊎ (dst'.space ≤ length dst'.text * 2))
unfolding space_for
space_bound dst src dst' h n (inr le) = inr le
space_bound dst src dst' h n (inl e) =
    elim (Bool-cases (ltb dst.space (length dst.text + length src))) [
      | inl b ↦ inr (ground (arith, b, e, n))
      | inr b ↦ inl (ground (arith, b, e))
    ]

-- Appending never writes past the end of the buffer and gives the texts in a row. The memory that is
-- allocated in the end is at least doubled by every reallocation, and is either that of the start or at
-- most twice what is needed.
pub strcat_all-concat :
    (srcs : List Bytes) (dst : RegString)
    → length dst.text ≤ dst.space
    → (dst' : RegString) × (strcat_all srcs dst ≡ some dst')
      × (dst'.text ≡ dst.text ++ concat srcs)
      × (dst.space * 2 ^ reallocs srcs dst ≤ dst'.space)
      × ((dst'.space ≡ dst.space) ⊎ (dst'.space ≤ length dst'.text * 2))
unfolding strcat_all concat reallocs
strcat_all-concat [] dst h = (dst, refl, sym (append-nil dst.text), omega arith, inl refl)
strcat_all-concat (src ∷ srcs) dst h = go (
    strcat_all-concat srcs (appended dst src) (
      omega
        (arith, length-append dst.text src, space_for-le dst.space (length dst.text + length src))))
  where
    go :
        (dst' : RegString) × (strcat_all srcs (appended dst src) ≡ some dst')
          × (dst'.text ≡ (dst.text ++ src) ++ concat srcs)
          × ((appended dst src).space * 2 ^ reallocs srcs (appended dst src) ≤ dst'.space)
          × ((dst'.space ≡ (appended dst src).space) ⊎ (dst'.space ≤ length dst'.text * 2))
        → (dst' : RegString) × ((elim (reg_strcat dst src) [
          | none ↦ none
          | some d ↦ strcat_all srcs d
        ])
            ≡ some dst')
          × (dst'.text ≡ dst.text ++ (src ++ concat srcs))
          × (dst.space
                * 2
                  ^ (if ltb dst.space (length dst.text + length src)
                      then suc (reallocs srcs (appended dst src))
                      else reallocs srcs (appended dst src))
              ≤ dst'.space)
          × ((dst'.space ≡ dst.space) ⊎ (dst'.space ≤ length dst'.text * 2))
    go (dst', e, t, low, high) = (
      dst',
      ap (λ o. elim o [ none ↦ none | some d ↦ strcat_all srcs d ]) (strcat-fits dst src h) ∙ e,
      t ∙ append_assoc dst.text src (concat srcs),
      omega (
        arith,
        space_for-grows dst.space (length dst.text + length src) (reallocs srcs (appended dst src)),
        low,
      ),
      space_bound dst src dst' h (length-text dst src srcs dst' t) high,
    )

-- What the rows are, without an array.
unfoldable pub read_rows : {A : Type 0} → List (Answer A) → List A → Selected A
read_rows [] results = waiting
read_rows (row (some object) ∷ answers) results = read_rows answers (results ++ object ∷ [])
read_rows (row none ∷ answers) results = deletes results
read_rows (done ∷ answers) results = objects results
read_rows (busy ∷ answers) results = read_rows answers results
read_rows (failed ∷ answers) results = deletes results

listcat-fits :
    {A : Type 0} (dst : RegList A) (src : A)
    → 0 < dst.room
    → length dst.items ≤ dst.room
    → reg_listcat dst src
      ≡ some (record { items = dst.items ++ src ∷ []; room = room_for (length dst.items) dst.room })
unfolding reg_listcat
listcat-fits dst src pos h = ground (arith, pos, h)

room_for-fits : (count room : ℕ) → 0 < room → count ≤ room → count + 1 ≤ room_for count room
room_for-fits count room pos h = ground (arith, pos, h)

step-read :
    {A : Type 0} (answers : List (Answer A)) (dst : RegList A)
    → 0 < dst.room
    → length dst.items ≤ dst.room
    → step_rows answers dst ≡ read_rows answers dst.items
unfolding step_rows read_rows
step-read [] dst pos h = refl
step-read (row (some x) ∷ answers) dst pos h =
    ap (λ o. elim o [ none ↦ overrun | some results' ↦ step_rows answers results' ])
      (listcat-fits dst x pos h)
    ∙ (step-read answers
        (record { items = dst.items ++ x ∷ []; room = room_for (length dst.items) dst.room })
        (omega (arith, room_for-fits (length dst.items) dst.room pos h))
        (omega (
          arith,
          room_for-fits (length dst.items) dst.room pos h,
          length-append dst.items (x ∷ []),
        )))
step-read (row none ∷ answers) dst pos h = refl
step-read (done ∷ answers) dst pos h = refl
step-read (busy ∷ answers) dst pos h = step-read answers dst pos h
step-read (failed ∷ answers) dst pos h = refl

-- The rows of a query come out in their order, however many there are and however often the database is
-- busy, and the array is never written past its end.
all_objects-read :
    {A : Type 0} (answers : List (Answer A)) → reg_all_objects answers ≡ read_rows answers []
unfolding reg_all_objects
all_objects-read answers =
    step-read answers (record { items = []; room = 10 }) (omega arith) (omega arith)
