-- ===== src/Filemap/Writers.antt =====
-- `SaveNode` of filemap.c, and the bytes of a subtree.
use macports.Prelude.{
  ℕ, ◌<◌, ◌≡◌, refl, sym, ap, ◌∙◌, [], ◌∷◌, ◌++◌, Bytes, append_assoc, append-nil, arith,
}
use mathlib.Core.Path.{fun_ext, subst₂}
use macports.Filemap.Types.{SHeader, leaf, node, Subnodes, nil, cons, no_error}
use macports.Filemap.Save.{
  Fate, whole, short, error_code, returned, Out, Writer, ◌>>◌, count_bytes, count, write, save_node,
  save_subnodes, kind_node, kind_leaf,
}
use macports.Filemap.RoundTrip.{encode, encode_subnodes}

mutual
  unfolding encode

  encode-append : (h : SHeader) (rest : Bytes) → encode h [] ++ rest ≡ encode h rest
  encode-append (leaf key value) rest =
      ap (λ b. kind_leaf ∷ b)
        (append_assoc key _ rest ∙ ap (λ b. key ++ 0 ∷ b) (append_assoc value _ rest))
  encode-append (node key subs) rest =
      ap (λ b. kind_node ∷ b)
        (append_assoc key _ rest
          ∙ ap (λ b. key ++ 0 ∷ (count_bytes (count subs) ++ b)) (encode_subnodes-append subs rest))

  encode_subnodes-append :
      (s : Subnodes) (rest : Bytes) → encode_subnodes s [] ++ rest ≡ encode_subnodes s rest
  encode_subnodes-append nil rest = refl
  encode_subnodes-append (cons h t) rest =
      ap (λ b. b ++ rest) (sym (encode-append h (encode_subnodes t [])))
      ∙ append_assoc (encode h []) _ rest
      ∙ ap (λ b. encode h [] ++ b) (encode_subnodes-append t rest)
      ∙ encode-append h (encode_subnodes t rest)

-- Where write(2) stops short, errno is not 0.
abbrev pub LeavesErrno : (ℕ → Fate) → Type 0
LeavesErrno fate = (n k e : ℕ) → fate n ≡ short k e → 0 < e

module _ (fate : ℕ → Fate) (leaves : LeavesErrno fate) where
  -- A writer that succeeds has appended `b`, and it succeeds where every write(2) does.
  pub record Writes (m : Writer) (b : Bytes) : Type 0 where
    pub appends : (out : Out) → (m out).0 ≡ no_error → (m out).1.written ≡ out.written ++ b
    pub succeeds : ((n : ℕ) → fate n ≡ whole) → (out : Out) → (m out).0 ≡ no_error
    pub fails : (out : Out) → error_code (m out).0 ≡ (m out).0

  write-fails :
      (b : Bytes) (out : Out) (f : Fate)
      → fate out.calls ≡ f
      → error_code (write fate b out).0 ≡ (write fate b out).0
  unfolding write
  write-fails b out whole h = ground (arith, h)
  write-fails b out (short k e) h =
      let positive : 0 < e = leaves out.calls k e h in ground (arith, h, positive)

  pub write-Writes : (b : Bytes) → Writes (write fate b) b
  unfolding write
  write-Writes b = record {
    appends = λ out e. ground arith;
    succeeds = λ all out. ground (arith, all out.calls);
    fails = λ out. write-fails b out (fate out.calls) refl;
  }

  pub >>-Writes : (m k : Writer) (b c : Bytes) → Writes m b → Writes k c → Writes (m >> k) (b ++ c)
  >>-Writes m k b c x y = record {
    appends =
        λ out e. ground (arith, x.appends out, y.appends (m out).1, append_assoc out.written b c);
    succeeds = λ all out. ground (arith, x.succeeds all out, y.succeeds all (m out).1);
    fails = λ out. ground (arith, x.fails out, y.fails (m out).1);
  }

  -- The same writer, under another name or for another spelling of its bytes.
  pub Writes-cast :
      (m k : Writer) (b c : Bytes) → ((out : Out) → m out ≡ k out) → c ≡ b → Writes m b → Writes k c
  Writes-cast m k b c e f w = subst₂ Writes (fun_ext e) (sym f) w

  returned-Writes :
      (m k : Writer) (b c : Bytes)
      → ((out : Out) → returned (m out) ≡ k out)
      → c ≡ b
      → Writes m b
      → Writes k c
  returned-Writes m k b c e f w =
      Writes-cast m k b c (λ out. ap (λ code. (code, (m out).1)) (sym (w.fails out)) ∙ e out) f w

  save_leaf-Writes :
      (key value : Bytes) → Writes (save_node fate (leaf key value)) (encode (leaf key value) [])
  unfolding save_node encode
  save_leaf-Writes key value =
      returned-Writes
        (write fate (kind_leaf ∷ []) >> write fate (key ++ 0 ∷ []) >> write fate (value ++ 0 ∷ []))
        (save_node fate (leaf key value)) _ _ (λ out. refl)
        (ap (λ b. kind_leaf ∷ b) (sym (append_assoc key (0 ∷ []) (value ++ 0 ∷ []))))
        (>>-Writes _ _ _ _
          (>>-Writes _ _ _ _ (write-Writes (kind_leaf ∷ [])) (write-Writes (key ++ 0 ∷ [])))
          (write-Writes (value ++ 0 ∷ [])))

  save_directory-Writes :
      (key : Bytes) (subs : Subnodes)
      → Writes (save_subnodes fate subs) (encode_subnodes subs [])
      → Writes (save_node fate (node key subs)) (encode (node key subs) [])
  unfolding save_node encode
  save_directory-Writes key subs w =
      returned-Writes
        (write fate (kind_node ∷ [])
          >> write fate (key ++ 0 ∷ [])
          >> write fate (count_bytes (count subs))
          >> (λ o. save_subnodes fate subs o))
        (save_node fate (node key subs)) _ _ (λ out. refl)
        (ap (λ b. kind_node ∷ b)
          (sym (
            append_assoc (key ++ 0 ∷ []) (count_bytes (count subs)) (encode_subnodes subs [])
            ∙ append_assoc key (0 ∷ []) (count_bytes (count subs) ++ encode_subnodes subs []))))
        (>>-Writes _ _ _ _
          (>>-Writes _ _ _ _
            (>>-Writes _ _ _ _ (write-Writes (kind_node ∷ [])) (write-Writes (key ++ 0 ∷ [])))
            (write-Writes (count_bytes (count subs))))
          w)

  save_subnodes_nil-Writes : Writes (save_subnodes fate nil) (encode_subnodes nil [])
  unfolding save_node encode
  save_subnodes_nil-Writes = record {
    appends = λ out e. sym (append-nil out.written);
    succeeds = λ all out. refl;
    fails = λ out. refl;
  }

  save_subnodes_cons-Writes :
      (h : SHeader) (t : Subnodes)
      → Writes (save_node fate h) (encode h [])
      → Writes (save_subnodes fate t) (encode_subnodes t [])
      → Writes (save_subnodes fate (cons h t)) (encode_subnodes (cons h t) [])
  unfolding save_node encode
  save_subnodes_cons-Writes h t v w =
      Writes-cast ((λ o. save_node fate h o) >> (λ o. save_subnodes fate t o))
        (save_subnodes fate (cons h t)) _ _ (λ out. refl)
        (sym (encode-append h (encode_subnodes t []))) (>>-Writes _ _ _ _ v w)

  mutual
    pub save_node-Writes : (h : SHeader) → Writes (save_node fate h) (encode h [])
    save_node-Writes (leaf key value) = save_leaf-Writes key value
    save_node-Writes (node key subs) = save_directory-Writes key subs (save_subnodes-Writes subs)

    save_subnodes-Writes : (s : Subnodes) → Writes (save_subnodes fate s) (encode_subnodes s [])
    save_subnodes-Writes nil = save_subnodes_nil-Writes
    save_subnodes-Writes (cons h t) =
        save_subnodes_cons-Writes h t (save_node-Writes h) (save_subnodes-Writes t)
