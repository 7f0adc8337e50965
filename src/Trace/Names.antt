-- ===== src/Trace/Names.antt =====
-- The list of the dependencies that base/src/port1.0/porttrace.tcl joins, in
-- base/src/pextlib1.0/tracelib.c.
use macports.Prelude.{
  ℕ, zero, suc, ◌≡◌, ◌≢◌, ◌<◌, refl, ◌∙◌, ap, [], ◌∷◌, ◌++◌, List, Bytes, Bool, true, false, ◌==◌,
  if◌then◌else◌, length, All, append_assoc, length-append, arith,
}
use macports.Prelude.Text.{NoNull, c_string-append}
use macports.Trace.Lookup.{same_text}
use macports.Trace.Server.{end_names, Search, found, absent, search_names}

-- Names joined by single spaces.
unfoldable pub join : List Bytes → Bytes
join [] = []
join (n ∷ []) = n
join (n ∷ m ∷ names) = n ++ b' ' ∷ join (m ∷ names)

-- The form in which `dep_check` reads them.
unfoldable pub listed : List Bytes → Bytes
listed [] = 0 ∷ []
listed (n ∷ names) = n ++ 0 ∷ listed names

abbrev NoSpace : Bytes → Type 0
NoSpace s = All (λ c. (c == b' ') ≡ false) s

abbrev pub IsName : Bytes → Type 0
IsName n = (n ≢ []) × NoNull n × NoSpace n

unfoldable pub has_name : Bytes → List Bytes → Bool
unfolding same_text
has_name port [] = false
has_name port (n ∷ names) =
    let rest = has_name port names in if same_text n port then true else rest

end_names-append : (n s : Bytes) → NoSpace n → end_names false (n ++ s) ≡ n ++ end_names false s
unfolding end_names
end_names-append [] s h = refl
end_names-append (c ∷ n) s h = ground (arith, h.0, end_names-append n s h.1)

end_names-name : (n : Bytes) → NoSpace n → end_names false n ≡ n
unfolding end_names
end_names-name [] h = refl
end_names-name (c ∷ n) h = ground (arith, h.0, end_names-name n h.1)

behind-first :
    (c : ℕ) (s : Bytes) → (c == b' ') ≡ false → end_names true (c ∷ s) ≡ end_names false (c ∷ s)
unfolding end_names
behind-first c s h = ground (arith, h)

space-end : (s : Bytes) → end_names false (b' ' ∷ s) ≡ 0 ∷ end_names true s
unfolding end_names
space-end s = refl

behind-same :
    (n : Bytes) (names : List Bytes)
    → IsName n
    → end_names true (join (n ∷ names)) ≡ end_names false (join (n ∷ names))
unfolding join
behind-same [] names h = absurd (h.0 refl)
behind-same (c ∷ n) [] h = behind-first c n h.2.0
behind-same (c ∷ n) (m ∷ names) h = behind-first c (n ++ b' ' ∷ join (m ∷ names)) h.2.0

-- The list that is set is read as the names that were joined.
pub end_names-join :
    (n : Bytes) (names : List Bytes)
    → All IsName (n ∷ names)
    → end_names false (join (n ∷ names)) ++ 0 ∷ 0 ∷ [] ≡ listed (n ∷ names)
unfolding join listed
end_names-join n [] h = ap (λ t. t ++ 0 ∷ 0 ∷ []) (end_names-name n h.0.2)
end_names-join n (m ∷ names) h =
    ap (λ t. t ++ 0 ∷ 0 ∷ [])
      (end_names-append n (b' ' ∷ join (m ∷ names)) h.0.2
        ∙ ap (λ t. n ++ t)
            (space-end (join (m ∷ names)) ∙ ap (λ t. 0 ∷ t) (behind-same m names h.1.0)))
    ∙ append_assoc n (0 ∷ end_names false (join (m ∷ names))) (0 ∷ 0 ∷ [])
    ∙ ap (λ t. n ++ 0 ∷ t) (end_names-join m names h.1)

listed_cons :
    (n rest : Bytes)
    → n ≢ []
    → NoNull n
    → (port : Bytes) (fuel : ℕ)
    → search_names (suc fuel) port (n ++ 0 ∷ rest)
      ≡ (if same_text n port then found else search_names fuel port rest)
unfolding search_names
listed_cons [] rest ne h port fuel = absurd (ne refl)
listed_cons (c ∷ n) rest ne h port fuel = ground (arith, h.0, c_string-append (c ∷ n) rest h)

either_name :
    (b rest : Bool) (s : Search)
    → s ≡ (if rest then found else absent)
    → (if b then found else s) ≡ (if if b then true else rest then found else absent)
either_name true rest s e = refl
either_name false rest s e = e

pub search-listed :
    (port : Bytes) (names : List Bytes) (fuel : ℕ)
    → All IsName names
    → length names < fuel
    → search_names fuel port (listed names) ≡ (if has_name port names then found else absent)
unfolding listed has_name search_names
search-listed port names zero h f = absurd (omega arith)
search-listed port [] (suc fuel) h f = refl
search-listed port (n ∷ names) (suc fuel) h f =
    listed_cons n (listed names) h.0.0 h.0.1 port fuel
    ∙ either_name (same_text n port) (has_name port names) _
        (search-listed port names fuel h.1 (omega arith))

pub length-listed : (names : List Bytes) → length names < length (listed names)
unfolding listed
length-listed [] = omega arith
length-listed (n ∷ names) = omega (arith, length-append n (0 ∷ listed names), length-listed names)
