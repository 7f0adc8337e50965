-- ===== src/Cregistry/Growth.antt =====
-- `reg_strcat` and `reg_listcat` of base/src/cregistry/util.c, with memory to grow.
use macports.Prelude.{
  ℕ, ◌+◌, ◌*◌, [], ◌∷◌, ◌++◌, List, Bytes, ◌==◌, if◌then◌else◌, length, ltb, leb, Option, none,
  some,
}

-- `dst` with the characters in it, and `dst_space`; one byte more is allocated.
pub record RegString : Type 0 where
  pub text : Bytes
  pub space : ℕ

abbrev pub grown : ℕ → ℕ → ℕ
grown space result = if ltb (space * 2) result then result else space * 2

-- `dst_space` behind the call.
unfoldable pub space_for : ℕ → ℕ → ℕ
space_for space result = if ltb space result then grown space result else space

-- `reg_strcat`. `none` is a write past the end of the buffer.
unfoldable pub reg_strcat : RegString → Bytes → Option RegString
reg_strcat dst src =
    let result = length dst.text + length src in
    if ltb (space_for dst.space result + 1) (result + 1)
    then none
    else some (record { text = dst.text ++ src; space = space_for dst.space result })

-- `dst` with the elements in it, and `dst_space`.
pub record RegList (A : Type 0) : Type 0 where
  pub items : List A
  pub room : ℕ

abbrev pub room_for : ℕ → ℕ → ℕ
room_for count room = if count == room then room * 2 else room

-- `reg_listcat`. `none` is a write past the end of the array.
unfoldable pub reg_listcat : {A : Type 0} → RegList A → A → Option (RegList A)
reg_listcat dst src =
    let room' = room_for (length dst.items) dst.room in
    if leb room' (length dst.items)
    then none
    else some (record { items = dst.items ++ src ∷ []; room = room' })
