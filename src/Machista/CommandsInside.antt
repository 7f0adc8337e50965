-- ===== src/Machista/CommandsInside.antt =====
-- What `parse_macho` of libmachista.c does with a file for one architecture, within the mapping.
use macports.Prelude.{ℕ, zero, suc, ◌+◌, ◌-◌, ◌≤◌, ◌≡◌, Bytes, Bool, arith}
use macports.Machista.Types.{MachoInput, MachoArch, done, ◌>>=◌, Name}
use macports.Machista.Reading.{macho_read, macho_offset, field, strlcpy}
use macports.Machista.Commands.{
  name_pointer, rpath_command, id_command, load_command, handle_command, load_commands,
}
use macports.Machista.Parse.{parse_thin, Archs}
use macports.Machista.Inside.{
  IsInside, bind-IsInside, Fits, field-IsInside, or_erange-IsInside, malloc-IsInside,
  or_erange-read, strlcpy-IsInside, name_pointer-IsInside, name_pointer-bounds,
}

module _ (N : Type 0) (m : Bytes) (input : MachoInput) (fits : Fits m input) where
  -- The string at the pointer that the checks give.
  name-IsInside :
      (size cmd cmdsize ptr n : ℕ)
      → input.data_at ≤ cmd
      → name_pointer input size cmd cmdsize ≡ done ptr
      → IsInside N (strlcpy m ptr n)
  name-IsInside size cmd cmdsize ptr n h e =
      strlcpy-IsInside N m _ ptr n fits ((name_pointer-bounds input size cmd cmdsize ptr h e).1)

  -- A field of the structure of `size` bytes before it.
  part-IsInside :
      (s : Bool) (size k cmd cmdsize ptr : ℕ)
      → input.data_at ≤ cmd
      → name_pointer input size cmd cmdsize ≡ done ptr
      → k + 4 ≤ size
      → IsInside N (field m s (cmd + k))
  part-IsInside s size k cmd cmdsize ptr h e l =
      field-IsInside N m s (cmd + k)
        (omega (arith, fits.0, (name_pointer-bounds input size cmd cmdsize ptr h e).0, l))

  rpath_command-IsInside :
      (cmd cmdsize : ℕ) (mat : MachoArch) (heap : ℕ)
      → input.data_at ≤ cmd
      → IsInside N (rpath_command m input cmd cmdsize mat heap)
  unfolding rpath_command
  rpath_command-IsInside cmd cmdsize mat heap h =
      bind-IsInside N _ _ (name_pointer-IsInside N input 12 cmd cmdsize) (λ ptr e.
        bind-IsInside N _ _ (malloc-IsInside N heap) (λ heap' f.
          bind-IsInside N _ _ (name-IsInside 12 cmd cmdsize ptr (cmdsize - 12) h e) (λ name g. tt)))

  -- The string and the versions of a library, which both commands for libraries read.
  dylib-IsInside :
      (s : Bool) (cmd cmdsize ptr : ℕ) (result : Name → ℕ → ℕ → MachoArch × ℕ)
      → input.data_at ≤ cmd
      → name_pointer input 24 cmd cmdsize ≡ done ptr
      → IsInside N (do
        name ← strlcpy m ptr (cmdsize - 24)
        version ← field m s (cmd + 16)
        comp_version ← field m s (cmd + 20)
        done (result name version comp_version))
  dylib-IsInside s cmd cmdsize ptr result h e =
      bind-IsInside N _ _ (name-IsInside 24 cmd cmdsize ptr (cmdsize - 24) h e) (λ name f.
        bind-IsInside N _ _ (part-IsInside s 24 16 cmd cmdsize ptr h e (omega arith)) (λ version g.
          bind-IsInside N _ _ (part-IsInside s 24 20 cmd cmdsize ptr h e (omega arith))
            (λ comp k. tt)))

  id_command-IsInside :
      (s : Bool) (cmd cmdsize : ℕ) (mat : MachoArch) (heap : ℕ)
      → input.data_at ≤ cmd
      → IsInside N (id_command m input s cmd cmdsize mat heap)
  unfolding id_command
  id_command-IsInside s cmd cmdsize mat heap h =
      bind-IsInside N _ _ (name_pointer-IsInside N input 24 cmd cmdsize) (λ ptr e.
        bind-IsInside N _ _ (malloc-IsInside N heap)
          (λ heap' f. dylib-IsInside s cmd cmdsize ptr _ h e))

  load_command-IsInside :
      (s : Bool) (t cmd cmdsize : ℕ) (mat : MachoArch) (heap : ℕ)
      → input.data_at ≤ cmd
      → IsInside N (load_command m input s t cmd cmdsize mat heap)
  unfolding load_command
  load_command-IsInside s t cmd cmdsize mat heap h =
      bind-IsInside N _ _ (name_pointer-IsInside N input 24 cmd cmdsize) (λ ptr e.
        bind-IsInside N _ _ (malloc-IsInside N heap) (λ heap' f.
          bind-IsInside N _ _ (malloc-IsInside N heap')
            (λ heap'' g. dylib-IsInside s cmd cmdsize ptr _ h e)))

  handle_command-IsInside :
      (s : Bool) (t cmd cmdsize : ℕ) (mat : MachoArch) (heap : ℕ)
      → input.data_at ≤ cmd
      → IsInside N (handle_command m input s t cmd cmdsize mat heap)
  unfolding handle_command
  handle_command-IsInside s t cmd cmdsize mat heap h = ground (
    arith,
    rpath_command-IsInside cmd cmdsize mat heap h,
    id_command-IsInside s cmd cmdsize mat heap h,
    load_command-IsInside s t cmd cmdsize mat heap h,
  )

  load_commands-IsInside :
      (s : Bool) (n cmd cmdsize : ℕ) (mat : MachoArch) (heap : ℕ)
      → input.data_at ≤ cmd
      → IsInside N (load_commands m input s n cmd cmdsize mat heap)
  unfolding load_commands macho_offset
  load_commands-IsInside s zero cmd cmdsize mat heap h = tt
  load_commands-IsInside s (suc n) cmd cmdsize mat heap h =
      bind-IsInside N _ _ (or_erange-IsInside N (macho_offset input cmd cmdsize 8)) (λ here e.
        let (at, room) = or_erange-read input (cmd + cmdsize) 8 here (omega (arith, h)) e in
        bind-IsInside N _ _ (field-IsInside N m s (here + 4) (omega (arith, at, room, fits.0)))
          (λ size f.
            bind-IsInside N _ _ (or_erange-IsInside N (macho_read input here size)) (λ whole g.
              let (same, _) = or_erange-read input here size whole (omega (arith, at, h)) g in
              bind-IsInside N _ _
                (field-IsInside N m s whole (omega (arith, at, room, same, fits.0)))
                (λ t k.
                  bind-IsInside N _ _
                    (handle_command-IsInside s t whole size mat heap (omega (arith, same, at, h)))
                    (λ x l.
                      load_commands-IsInside s n whole size x.0 x.1
                        (omega (arith, same, at, h)))))))

  pub parse_thin-IsInside :
      (s : Bool) (header_size : ℕ) (mt : Archs)
      → 20 ≤ header_size
      → IsInside N (parse_thin m input s header_size mt)
  unfolding parse_thin
  parse_thin-IsInside s size mt h =
      bind-IsInside N _ _ (or_erange-IsInside N (macho_read input input.data_at size)) (λ header e.
        let (at, room) = or_erange-read input input.data_at size header (omega arith) e in
        bind-IsInside N _ _ (malloc-IsInside N mt.1) (λ heap f.
          bind-IsInside N _ _
            (field-IsInside N m s (header + 4) (omega (arith, at, room, h, fits.0)))
            (λ c g.
              bind-IsInside N _ _
                (field-IsInside N m s (header + 16) (omega (arith, at, room, h, fits.0)))
                (λ n k.
                  bind-IsInside N _ _
                    (load_commands-IsInside s n header size _ heap (omega (arith, at)))
                    (λ x l. tt)))))
