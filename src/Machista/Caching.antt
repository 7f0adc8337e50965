-- ===== src/Machista/Caching.antt =====
-- The results that a handle of libmachista.c keeps, and what its calls hold on to.
use macports.Prelude.{
  ℕ, zero, suc, ◌+◌, ◌-◌, ◌≡◌, ◌⊎◌, inl, inr, refl, ap, sym, subst, [], ◌∷◌, ◌++◌, List, Bytes,
  length, Bool, true, false, Bool-cases, Option, Option-cases, none, some, arith,
}
use macports.Machista.Types.{
  MachoArch, MachoError, macho_efile, macho_emmap, macho_emem, Result, done, failed, outside,
  null_dereference, out_of_fuel,
}
use macports.Machista.Encode.{Image, encode_image, image_meaning, image_cost, IsImage}
use macports.Machista.RoundTrip.{parse_macho-image}
use macports.Machista.Handle.{
  HashMap, Holdings, FileCalls, Parsed, returns, crashed, endless, released, after_parse, parse_new,
  macho_parse_file, file_opened, file_closed,
}

-- Where a call ends.
abbrev pub Ends {κ} :
    {Map : Type 0}
    → (Option MachoError → Option (List MachoArch) → Holdings Map → Type κ)
    → Parsed Map
    → Type κ
Ends P (returns code res p) = P code res p
Ends P crashed = Unit
Ends P endless = Unit

module _ {Map : Type 0} (map : HashMap Map) where
  -- What a hash map promises: it gives back what it has stored under a key.
  abbrev pub KeepsStored : Type 0
  KeepsStored =
      (m m' : Map) (path : Bytes) (archs : List MachoArch)
      → map.hash_map_put m path archs ≡ (m', true)
      → map.hash_map_get m' path ≡ some archs

  -- The file descriptors and mappings are those of before.
  abbrev pub Keeps : Holdings Map → Holdings Map → Type 0
  Keeps p q = (q.descriptors ≡ p.descriptors) × (q.mappings ≡ p.mappings)

  -- A process with one more file and one more mapping.
  abbrev pub with_file : Holdings Map → Holdings Map
  with_file p = record p { descriptors = p.descriptors + 1; mappings = p.mappings + 1 }

  less_one : (n : ℕ) → n + 1 - 1 ≡ n
  less_one n = omega arith

  -- A file that is opened and closed again.
  file_closed-file_opened : (p : Holdings Map) → file_closed (file_opened p) ≡ p
  file_closed-file_opened p = ap (λ n. record p { descriptors = n }) (less_one p.descriptors)

  -- How `parse_new` ends, by its returns.
  parse_new-Ends {κ} :
      (P : Option MachoError → Option (List MachoArch) → Holdings Map → Type κ)
      → (fuel : ℕ) (path : Bytes) (open_works : Bool) (size : Option ℕ) (mapped : Option Bytes)
        (heap : ℕ) (res : Option (List MachoArch)) (p : Holdings Map)
      → ((e : MachoError) → P (some e) res p)
      → (heap ≡ 0 → P (some macho_emem) none (with_file p))
      → ((r : Result (List MachoArch × ℕ)) → Ends P (after_parse map path (with_file p) r))
      → Ends P (
          parse_new map fuel path
            (record { open_works = open_works; st_size = size; mapped = mapped; heap = heap })
            res
            p)
  unfolding parse_new
  parse_new-Ends P fuel path false size mapped heap res p e z a = e _
  parse_new-Ends P fuel path true none mapped heap res p e z a =
      subst (P (some macho_efile) res) (sym (file_closed-file_opened p)) (e macho_efile)
  parse_new-Ends P fuel path true (some n) none heap res p e z a =
      subst (P (some macho_emmap) res) (sym (file_closed-file_opened p)) (e macho_emmap)
  parse_new-Ends P fuel path true (some n) (some m) zero res p e z a = z refl
  parse_new-Ends P fuel path true (some n) (some m) (suc heap) res p e z a = a _

  released-with_file {κ} :
      (P : Option MachoError → Option (List MachoArch) → Holdings Map → Type κ)
      → (code : Option MachoError) (res : Option (List MachoArch)) (m : Map) (p : Holdings Map)
      → P code res (record p { result_map = m })
      → Ends P (released map code res (record (with_file p) { result_map = m }))
  released-with_file P code res m p h = rw (less_one p.descriptors, less_one p.mappings) h

  -- How it ends after the parser.
  after_parse-Ends {κ} :
      (P : Option MachoError → Option (List MachoArch) → Holdings Map → Type κ)
      → (path : Bytes) (p : Holdings Map) (r : Result (List MachoArch × ℕ))
      → ((archs : List MachoArch) (m : Map)
          → map.hash_map_put p.result_map path archs ≡ (m, true)
          → P none (some archs) (record p { result_map = m }))
      → ((e : MachoError) (m : Map) → P (some e) none (record p { result_map = m }))
      → Ends P (after_parse map path (with_file p) r)
  unfolding after_parse
  after_parse-Ends P path p (done (archs, left)) s f =
      let m = map.hash_map_put p.result_map path archs in
      elim (Bool-cases m.1) [
        | inl t ↦
            rw t (released-with_file P none (some archs) m.0 p (s archs m.0 (ap (λ b. (m.0, b)) t)))
        | inr t ↦ rw t (released-with_file P (some macho_emem) none m.0 p (f macho_emem m.0))
      ]
  after_parse-Ends P path p (failed e) s f =
      released-with_file P (some e) none p.result_map p (f e p.result_map)
  after_parse-Ends P path p outside s f = tt
  after_parse-Ends P path p null_dereference s f = tt
  after_parse-Ends P path p out_of_fuel s f = tt

  macho_parse_file-Ends {κ} :
      (P : Option MachoError → Option (List MachoArch) → Holdings Map → Type κ)
      → (fuel : ℕ) (path : Bytes) (calls : FileCalls) (res : Option (List MachoArch))
        (p : Holdings Map)
      → ((archs : List MachoArch)
          → map.hash_map_get p.result_map path ≡ some archs
          → P none (some archs) p)
      → ((e : MachoError) → P (some e) res p)
      → (calls.heap ≡ 0 → P (some macho_emem) none (with_file p))
      → ((archs : List MachoArch) (m : Map)
          → map.hash_map_put p.result_map path archs ≡ (m, true)
          → P none (some archs) (record p { result_map = m }))
      → ((e : MachoError) (m : Map) → P (some e) none (record p { result_map = m }))
      → Ends P (macho_parse_file map fuel path calls res p)
  unfolding macho_parse_file
  macho_parse_file-Ends P fuel path calls res p c e z s f =
      elim (Option-cases (map.hash_map_get p.result_map path)) [
        | inl n ↦
            rw (macho_parse_file, n)
              (parse_new-Ends P fuel path calls.open_works calls.st_size calls.mapped calls.heap res
                p e z (λ r. after_parse-Ends P path p r s f))
        | inr (archs, n) ↦ rw (macho_parse_file, n) (c archs n)
      ]

  -- A result that is returned as a success is stored.
  abbrev pub IsStored : Bytes → Option MachoError → Option (List MachoArch) → Holdings Map → Type 0
  IsStored path (some e) res q = Unit
  IsStored path none res q =
      (archs : List MachoArch) × (res ≡ some archs)
      × (map.hash_map_get q.result_map path ≡ some archs)

  -- With a hash map that keeps what it has stored, a file that was parsed once is not read again: the
  -- same handle gives the same result, whatever the operating system would answer, and changes nothing.
  pub macho_parse_file-again :
      KeepsStored
      → (fuel fuel' : ℕ) (path : Bytes) (calls calls' : FileCalls)
        (res res' last : Option (List MachoArch)) (p q : Holdings Map)
      → macho_parse_file map fuel path calls res p ≡ returns none res' q
      → macho_parse_file map fuel' path calls' last q ≡ returns none res' q
  unfolding macho_parse_file
  macho_parse_file-again law fuel fuel' path calls calls' res res' last p q e =
      let (archs, same, stored) = subst (Ends (IsStored path)) e (
        macho_parse_file-Ends (IsStored path) fuel path calls res p (λ archs g. (archs, refl, g))
          (λ e'. tt) (λ z. tt) (λ archs m s. (archs, refl, law p.result_map m path archs s))
          (λ e' m. tt)) in
      rw (macho_parse_file, stored) (ap (λ r. returns none r q) (sym same))

  -- A call that returns has closed the file and unmapped it, whatever the operating system and the
  -- hash map answer, unless no memory is left for its first allocation: then it returns MACHO_EMEM
  -- with both still open.
  pub macho_parse_file-releases :
      (fuel : ℕ) (path : Bytes) (calls : FileCalls) (res res' : Option (List MachoArch))
      (code : Option MachoError) (p q : Holdings Map)
      → macho_parse_file map fuel path calls res p ≡ returns code res' q
      → ((q.descriptors ≡ p.descriptors) × (q.mappings ≡ p.mappings))
        ⊎ ((calls.heap ≡ 0)
            × (code ≡ some macho_emem)
            × (q.descriptors ≡ p.descriptors + 1)
            × (q.mappings ≡ p.mappings + 1))
  macho_parse_file-releases fuel path calls res res' code p q e =
      subst
        (Ends (λ code res' q.
          Keeps p q
          ⊎ ((calls.heap ≡ 0)
              × (code ≡ some macho_emem)
              × (q.descriptors ≡ p.descriptors + 1)
              × (q.mappings ≡ p.mappings + 1))))
        e
        (macho_parse_file-Ends _ fuel path calls res p (λ archs n. inl (refl, refl))
          (λ e'. inl (refl, refl)) (λ z. inr (z, refl, refl, refl)) (λ archs m n. inl (refl, refl))
          (λ e' m. inl (refl, refl)))

  -- A readable file of one architecture that the handle does not know yet is parsed into what its
  -- commands say, stored under its path and closed, if each of its numbers and sizes is of 32 bits, no
  -- name has a null character, and there is memory for it.
  pub macho_parse_file-image :
      (fuel : ℕ) (path : Bytes) (i : Image) (padding : Bytes) (left : ℕ)
      (res : Option (List MachoArch)) (p : Holdings Map) (m : Map)
      → IsImage i
      → map.hash_map_get p.result_map path ≡ none
      → map.hash_map_put p.result_map path (image_meaning i ∷ []) ≡ (m, true)
      → macho_parse_file map
          (suc fuel)
          path
          (record {
            open_works = true;
            st_size = some (length (encode_image i));
            mapped = some (encode_image i ++ padding);
            heap = suc (image_cost i + left);
          })
          res
          p
        ≡ returns none (some (image_meaning i ∷ [])) (record p { result_map = m })
  unfolding macho_parse_file parse_new after_parse
  macho_parse_file-image fuel path i padding left res p m h g s =
      rw
        (
          macho_parse_file,
          g,
          parse_macho-image fuel (encode_image i ++ padding)
              (record { data_at = 0; data_length = length (encode_image i) }) i padding []
              (image_cost i + left) left h refl (omega arith) refl,
          s,
          less_one p.descriptors,
          less_one p.mappings,
        )
        refl
