-- ===== src/Sniff/Tls/Names.antt =====
-- The server name that tryTLSDecode returns, pkg/muxtunnel.go, never ends with a dot.
use goreverselb.Base.{
  Bool-cases, Bytes, Option-cases, [], false, if◌then◌else◌, inl, inr, length, refl, suc, zero, ℕ,
  ◌==◌, ◌∷◌, ◌≡◌,
}
use goreverselb.Sniff.Cursor.{Cryptobyte}
use goreverselb.Sniff.Tls.{
  Loop, stuck, returns_empty, leaves, has_dot_suffix, name_loop, server_name_extension,
  extension_loop, continue, server_name_loop, extensions_of, try_tls_decode, result,
}

abbrev NoDot : Loop → Type 0
NoDot (leaves s) = has_dot_suffix s ≡ false
NoDot _ = Unit {0}

module _ (c : Cryptobyte) where
  name_loop-NoDot :
      (fuel : ℕ) (servername b : Bytes)
      → has_dot_suffix servername ≡ false
      → NoDot (name_loop c fuel servername b)
  unfolding name_loop
  name_loop-NoDot zero servername [] h = h
  name_loop-NoDot (suc fuel) servername [] h = h
  name_loop-NoDot zero servername (x ∷ b) h = tt
  name_loop-NoDot (suc fuel) servername (x ∷ b) h = elim (Option-cases (c.read_uint8 (x ∷ b))) [
    | inl e ↦ rw (e, name_loop) tt
    | inr ((t, rest), e) ↦ elim (Option-cases (c.read_uint16_length_prefixed rest)) [
      | inl g ↦ rw (e, g, name_loop) tt
      | inr ((name, rest'), g) ↦
          let on = name_loop-NoDot fuel servername rest' h in
          let other = name_loop-NoDot fuel name rest' in
          rw (e, g, name_loop)
            (elim (Bool-cases (length name == 0)) [
              | inl a ↦ rw a tt
              | inr a ↦ rw a (elim (Bool-cases (t == 0)) [
                | inr z ↦ rw z on
                | inl z ↦ rw z (elim (Bool-cases (length servername == 0)) [
                  | inr y ↦ rw y tt
                  | inl y ↦ rw y (elim (Bool-cases (has_dot_suffix name)) [
                    | inl w ↦ rw w tt
                    | inr w ↦ rw w (other w)
                  ])
                ])
              ])
            ])
    ]
  ]

  server_name_extension-NoDot :
      (servername b : Bytes)
      → has_dot_suffix servername ≡ false
      → NoDot (server_name_extension c servername b)
  unfolding server_name_extension
  server_name_extension-NoDot servername b h =
      elim (Option-cases (c.read_uint16_length_prefixed b)) [
        | inl e ↦ rw (e, server_name_extension) tt
        | inr ((names, rest), e) ↦
            rw (e, server_name_extension)
              (elim (Bool-cases (length names == 0)) [
                | inl a ↦ rw a tt
                | inr a ↦ rw a (name_loop-NoDot (length names) servername names h)
              ])
      ]

  continue-NoDot :
      (l : Loop) (f : Bytes → Loop)
      → NoDot l
      → ((s : Bytes) → has_dot_suffix s ≡ false → NoDot (f s))
      → NoDot (continue c l f)
  continue-NoDot stuck f h k = tt
  continue-NoDot returns_empty f h k = tt
  continue-NoDot (leaves s) f h k = k s h

  extension_loop-NoDot :
      (fuel : ℕ) (servername b : Bytes)
      → has_dot_suffix servername ≡ false
      → NoDot (extension_loop c fuel servername b)
  unfolding extension_loop
  extension_loop-NoDot zero servername [] h = h
  extension_loop-NoDot (suc fuel) servername [] h = h
  extension_loop-NoDot zero servername (x ∷ b) h = tt
  extension_loop-NoDot (suc fuel) servername (x ∷ b) h =
      elim (Option-cases (c.read_uint16 (x ∷ b))) [
        | inl e ↦ rw (e, extension_loop) tt
        | inr ((t, rest), e) ↦ elim (Option-cases (c.read_uint16_length_prefixed rest)) [
          | inl g ↦ rw (e, g, extension_loop) tt
          | inr ((ext, rest'), g) ↦
              rw (e, g, extension_loop)
                (continue-NoDot
                  (if t == 0 then server_name_extension c servername ext else leaves servername)
                  (λ name. extension_loop c fuel name rest')
                  (elim (Bool-cases (t == 0)) [
                    | inl z ↦ rw z (server_name_extension-NoDot servername ext h)
                    | inr z ↦ rw z h
                  ])
                  (λ name. extension_loop-NoDot fuel name rest'))
        ]
      ]

  result-NoDot : (l : Loop) → NoDot l → has_dot_suffix (result c l) ≡ false
  unfolding has_dot_suffix
  result-NoDot stuck h = refl
  result-NoDot returns_empty h = refl
  result-NoDot (leaves s) h = h

  -- Whatever bytes a client sends, the server name that is returned does not end with a dot.
  pub try_tls_decode-no_dot : (b : Bytes) → has_dot_suffix (try_tls_decode c b) ≡ false
  unfolding try_tls_decode has_dot_suffix
  try_tls_decode-no_dot b =
      result-NoDot (server_name_loop c (extensions_of c b))
        (elim (Option-cases (extensions_of c b)) [
          | inl e ↦ rw e tt
          | inr (x, e) ↦ rw e (extension_loop-NoDot (length x) [] x refl)
        ])
