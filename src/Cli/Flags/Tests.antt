-- ===== src/Cli/Flags/Tests.antt =====
-- No two flags of a command, with those that all commands have, share a name or a variable.
use goreverselb.Base.{
  Bool, Bytes, List, [], bytes_dec, false, ite, not, refl, true, ◌&&◌, ◌++◌, ◌∷◌, ◌≡◌,
}
use goreverselb.Cli.Flags.{
  Flag, global_flags, server_flags, tunnel_flags, tunnelgroup_flags, stdinproxy_flags,
}

abbrev is_in : Bytes → List Bytes → Bool
is_in s [] = false
is_in s (t ∷ ts) = ite (bytes_dec s t) true (is_in s ts)

abbrev all_different : List Bytes → Bool
all_different [] = true
all_different (s ∷ ts) = not (is_in s ts) && all_different ts

abbrev names_of : List Flag → List Bytes
names_of [] = []
names_of (f ∷ fs) = f.name ∷ (f.aliases ++ names_of fs)

abbrev variables_of : List Flag → List Bytes
variables_of [] = []
variables_of (f ∷ fs) = f.env_var ∷ variables_of fs

abbrev are_different : List Flag → Bool
are_different fs =
    all_different (names_of (global_flags ++ fs))
    && all_different (variables_of (global_flags ++ fs))

different :
    (are_different server_flags ≡ true)
    × (are_different tunnel_flags ≡ true)
    × (are_different tunnelgroup_flags ≡ true)
    × (are_different stdinproxy_flags ≡ true)
unfolding bytes_dec global_flags server_flags tunnel_flags tunnelgroup_flags stdinproxy_flags
different = (refl, refl, refl, refl)
