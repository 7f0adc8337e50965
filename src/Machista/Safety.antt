-- ===== src/Machista/Safety.antt =====
-- The parser of libmachista.c reads nothing outside the mapping of a file, and nothing through a null
-- pointer but for a short universal header.
use macports.Prelude.{
  ℕ, zero, suc, ◌+◌, ◌*◌, ◌≤◌, ◌<◌, ◌≡◌, ◌≢◌, refl, sym, ◌∙◌, ap, subst, [], ◌∷◌, ◌++◌, Bytes,
  length, drop, true, false, Bool-cases, Option-cases, ◌⊎◌, inl, inr, none, some, arith,
  length-append, ◌==◌, ◌||◌,
}
use macports.Prelude.Text.{c_string}
use macports.Machista.Types.{
  MachoInput, Result, done, failed, outside, null_dereference, out_of_fuel, fat_magic, fat_cigam,
}
use macports.Machista.Reading.{macho_read, macho_offset, or_erange, word_at, field}
use macports.Machista.Parse.{parse_archs, parse_universal, parse_magic, parse_macho, Archs}
use macports.Machista.Parts.{IsUniversal, Part, whole, slice, ShortUniversal}
use macports.Machista.Inside.{
  IsInside, bind-IsInside, Fits, word_at-IsInside, field-IsInside, or_erange-IsInside,
  or_erange-read,
}
use macports.Machista.CommandsInside.{parse_thin-IsInside}

-- A header that does not fit in the input.
short_header :
    (input : MachoInput) → macho_read input input.data_at 8 ≡ none → input.data_length < 8
unfolding macho_read
short_header input e = ground (arith, e)

-- The parser handles every part of `root` without a read outside the mapping, and a read through a
-- null pointer needs a part that is too short.
abbrev Handles : Bytes → MachoInput → (MachoInput → Archs → Result Archs) → Type 0
Handles m root parse =
    (sub : MachoInput)
    → Fits m sub
    → Part m root sub
    → (mt : Archs) → IsInside (ShortUniversal m root) (parse sub mt)

module _ (m : Bytes) (root : MachoInput) (parse : MachoInput → Archs → Result Archs)
    (handles : Handles m root parse) (input : MachoInput) (fits : Fits m input)
    (part : Part m root input) where
  abbrev Short : Type 0
  Short = ShortUniversal m root

  -- The file that a description names.
  slice-IsInside :
      (i desc off len start : ℕ) (mt : Archs)
      → IsUniversal m input
      → desc ≡ input.data_at + 8 + 20 * i
      → desc + 20 ≤ input.data_at + input.data_length
      → field m true (desc + 12) ≡ done len
      → field m true (desc + 8) ≡ done off
      → start ≡ input.data_at + off
      → input.data_at + off + len ≤ input.data_at + input.data_length
      → IsInside Short (parse (record { data_at = start; data_length = len }) mt)
  slice-IsInside i desc off len start mt u at room f g there fit =
      handles (record { data_at = start; data_length = len })
        (omega (arith, fit, there, fits.0), λ a l. fits.1 a (omega (arith, l, there, fit)))
        (subst (λ a. Part m root (record { data_at = a; data_length = len })) (sym there)
          (slice i off len part u (omega (arith, at, room))
            (subst (λ a. field m true (a + 8) ≡ done off) at g)
            (subst (λ a. field m true (a + 12) ≡ done len) at f) (omega (arith, fit))))
        mt

  parse_archs-IsInside :
      IsUniversal m input
      → (n i arch : ℕ) (mt : Archs) → arch ≡ input.data_at + 8 + 20 * i
      → IsInside Short (parse_archs parse m input n arch mt)
  unfolding parse_archs macho_offset
  parse_archs-IsInside u zero i arch mt h = tt
  parse_archs-IsInside u (suc n) i arch mt h =
      bind-IsInside Short _ _ (or_erange-IsInside Short (macho_read input arch 20)) (λ desc e.
        let (at, room) = or_erange-read input arch 20 desc (omega (arith, h)) e in
        bind-IsInside Short _ _
          (field-IsInside Short m true (desc + 12) (omega (arith, at, room, fits.0)))
          (λ len f.
            bind-IsInside Short _ _
              (field-IsInside Short m true (desc + 8) (omega (arith, at, room, fits.0)))
              (λ off g.
                bind-IsInside Short _ _
                  (or_erange-IsInside Short (macho_offset input input.data_at off len))
                  (λ start k.
                    let (there, fit) =
                      or_erange-read input (input.data_at + off) len start (omega arith) k in
                    bind-IsInside Short _ _
                      (slice-IsInside i desc off len start mt u (at ∙ h) (omega (arith, room, at)) f
                        g there fit)
                      (λ mt' l.
                        parse_archs-IsInside u n (suc i) (arch + 20) mt' (omega (arith, h)))))))

  parse_universal-IsInside :
      (magic : ℕ) (mt : Archs)
      → 4 ≤ input.data_length
      → word_at m input.data_at ≡ done magic
      → (magic == fat_cigam || magic == fat_magic) ≡ true
      → IsInside Short (parse_universal parse m input mt)
  unfolding parse_universal macho_offset
  parse_universal-IsInside magic mt four e' u =
      elim (Option-cases (macho_read input input.data_at 8)) [
        | inl e ↦ rw (parse_universal, e) (input, part, (magic, e', u), four, short_header input e)
        | inr (header, e) ↦
            let (at, room) =
              or_erange-read input input.data_at 8 header (omega arith) (ap or_erange e) in
            rw (parse_universal, e)
              (bind-IsInside Short _ _
                (field-IsInside Short m true (header + 4) (omega (arith, at, room, fits.0)))
                (λ n f.
                  bind-IsInside Short _ _
                    (or_erange-IsInside Short (macho_offset input header 8 20))
                    (λ archs g.
                      let (there, _) =
                        or_erange-read input (header + 8) 20 archs (omega (arith, at)) g in
                      parse_archs-IsInside (magic, e', u) n 0 archs mt (omega (arith, there, at)))))
      ]

  parse_magic-IsInside :
      (magic : ℕ) (mt : Archs)
      → 4 ≤ input.data_length
      → word_at m input.data_at ≡ done magic
      → IsInside Short (parse_magic parse magic m input mt)
  unfolding parse_magic
  parse_magic-IsInside magic mt four e = ground (
    arith,
    parse_thin-IsInside Short m input fits true 28 mt (omega arith),
    parse_thin-IsInside Short m input fits false 28 mt (omega arith),
    parse_thin-IsInside Short m input fits true 32 mt (omega arith),
    parse_thin-IsInside Short m input fits false 32 mt (omega arith),
    parse_universal-IsInside magic mt four e,
  )

parse_macho-IsInside :
    (m : Bytes) (root : MachoInput) (fuel : ℕ) → Handles m root (parse_macho fuel m)
unfolding parse_macho
parse_macho-IsInside m root zero input fits part mt = tt
parse_macho-IsInside m root (suc fuel) input fits part mt =
    let Short = ShortUniversal m root in
    bind-IsInside Short _ _ (or_erange-IsInside Short (macho_read input input.data_at 4))
      (λ start e.
        let (at, room) = or_erange-read input input.data_at 4 start (omega arith) e in
        bind-IsInside Short _ _ (word_at-IsInside Short m start (omega (arith, at, room, fits.0)))
          (λ magic f.
            parse_magic-IsInside m root (parse_macho fuel m) (parse_macho-IsInside m root fuel)
              input fits part magic mt (omega (arith, room))
              (subst (λ a. word_at m a ≡ done magic) at f)))

c_string-zero : (s pad : Bytes) → (x : Bytes × Bytes) × (c_string (s ++ 0 ∷ pad) ≡ some x)
unfolding c_string
c_string-zero [] pad = (_, refl)
c_string-zero (c ∷ s) pad =
    let (x, e) = c_string-zero s pad in
    elim (Bool-cases (c == 0)) [
      | inl z ↦ (([], s ++ 0 ∷ pad), rw (e, z) refl)
      | inr z ↦ ((c ∷ x.0, x.1), rw (e, z) refl)
    ]

drop-zero :
    (a : ℕ) (s pad : Bytes)
    → a ≤ length s
    → (x : Bytes × Bytes) × (c_string (drop a (s ++ 0 ∷ pad)) ≡ some x)
drop-zero zero s pad h = c_string-zero s pad
drop-zero (suc a) [] pad h = absurd (omega (arith, h))
drop-zero (suc a) (c ∷ s) pad h = drop-zero a s pad (omega (arith, h))

-- What a result without such a read is not.
IsInside-outcome :
    {A : Type 0} (N : Type 0) (r : Result A)
    → IsInside N r
    → (r ≢ outside) × ((r ≢ null_dereference) ⊎ N)
IsInside-outcome N null_dereference h = (λ e. subst (IsInside N) e h, inr h)
IsInside-outcome N (done a) h = (λ e. subst (IsInside N) e h, inl (λ e. subst (IsInside ⊥) e tt))
IsInside-outcome N (failed c) h = (λ e. subst (IsInside N) e h, inl (λ e. subst (IsInside ⊥) e tt))
IsInside-outcome N out_of_fuel h = (λ e. subst (IsInside N) e h, inl (λ e. subst (IsInside ⊥) e tt))
IsInside-outcome N outside h = absurd h

-- A file of any contents, from its start or any part of it, is parsed without a read past the end of
-- its mapping, if the mapping holds a null byte behind the file, as it does where the file does not
-- fill its last page. And it is parsed without a read through a null pointer, or there is an input of
-- four to seven bytes with the magic number of universal files: the whole input, or what descriptions
-- of architectures lead to from it.
pub parse_file_bytes-IsInside :
    (file padding : Bytes) (fuel : ℕ) (input : MachoInput) (mt : Archs)
    → input.data_at + input.data_length ≤ length file
    → (parse_macho fuel (file ++ 0 ∷ padding) input mt ≢ outside)
      × ((parse_macho fuel (file ++ 0 ∷ padding) input mt ≢ null_dereference)
          ⊎ ShortUniversal (file ++ 0 ∷ padding) input)
parse_file_bytes-IsInside file padding fuel input mt h =
    IsInside-outcome (ShortUniversal (file ++ 0 ∷ padding) input) _ (
      parse_macho-IsInside (file ++ 0 ∷ padding) input fuel input
        (
          omega (arith, h, length-append file (0 ∷ padding)),
          λ a l. drop-zero a file padding (omega (arith, l, h)),
        )
        whole mt)
