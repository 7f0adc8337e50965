-- ===== src/Trace/Tests/Session.antt =====
-- Runs of trace mode's server and its client together, and instances of the theorems on them.
use macports.Prelude.{
  ◌≡◌, refl, List, [], ◌∷◌, ◌++◌, Bytes, true, false, if◌then◌else◌, some, none, codes,
}
use macports.Trace.Sandbox.{unset}
use macports.Trace.Lookup.{same_text}
use macports.Trace.Absolute.{IsPlain, has_fork, is_vol, is_link, first_name, lookup-normal}
use macports.Trace.Absolute
use macports.Trace.Server.{Server, Registry, end_names}

abbrev sample_server : Server
sample_server = record { sandbox = unset; depends = none; enable_fence = false }

-- One file belongs to "zlib", and all others to no port.
abbrev sample_registry : Registry
sample_registry = record {
  is_attached = true;
  owner_id = λ path. if same_text path (codes "/opt/x") then 7 else 0;
  owner_name = λ id. some (codes "zlib");
}

abbrev sample_names : List Bytes
sample_names = codes "perl5" ∷ codes "zlib" ∷ []

-- Two spaces in a row leave a name that starts with a space.
two_spaces : end_names false (codes "perl5  zlib") ≡ codes "perl5" ++ 0 ∷ codes " zlib"
unfolding end_names
two_spaces = refl
