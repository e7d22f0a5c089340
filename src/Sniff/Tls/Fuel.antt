-- ===== src/Sniff/Tls/Fuel.antt =====
-- The loops of tryTLSDecode end: the fuel, the length of what they walk, never runs out, since
-- every round reads at least one byte.
use goreverselb.Base.{
  Bytes, Option-cases, [], ap, arith, if◌then◌else◌, inl, inr, length, refl, suc, zero, ℕ, ◌==◌,
  ◌∷◌, ◌≢◌, ◌≤◌,
}
use goreverselb.Sniff.Cursor.{Cryptobyte, IsDocumented}
use goreverselb.Sniff.Tls.{
  Loop, stuck, returns_empty, leaves, name_loop, server_name_extension, extension_loop, continue,
  server_name_loop, extensions_of,
}

module _ (c : Cryptobyte) (d : IsDocumented c) where
  name_loop-ne-stuck :
      (fuel : ℕ) (servername b : Bytes) → length b ≤ fuel → name_loop c fuel servername b ≢ stuck
  unfolding name_loop
  name_loop-ne-stuck zero servername [] h = λ e. cc
  name_loop-ne-stuck (suc fuel) servername [] h = λ e. cc
  name_loop-ne-stuck zero servername (x ∷ b) h = absurd (omega arith)
  name_loop-ne-stuck (suc fuel) servername (x ∷ b) h = elim (Option-cases (c.read_uint8 (x ∷ b))) [
    | inl e ↦ rw (e, name_loop) (λ k. cc)
    | inr ((t, rest), e) ↦ elim (Option-cases (c.read_uint16_length_prefixed rest)) [
      | inl g ↦ rw (e, g, name_loop) (λ k. cc)
      | inr ((name, rest'), g) ↦
          let short : length rest' ≤ fuel = omega (
            arith,
            ap length (d.read_uint8_only (x ∷ b) t rest e),
            d.read_uint16_length_prefixed_only rest name rest' g,
          ) in
          rw (e, g, name_loop)
            (ground (
              arith,
              name_loop-ne-stuck fuel servername rest' short,
              name_loop-ne-stuck fuel name rest' short,
            ))
    ]
  ]

  server_name_extension-ne-stuck :
      (servername b : Bytes) → server_name_extension c servername b ≢ stuck
  unfolding server_name_extension
  server_name_extension-ne-stuck servername b =
      elim (Option-cases (c.read_uint16_length_prefixed b)) [
        | inl e ↦ rw (e, server_name_extension) (λ k. cc)
        | inr ((names, rest), e) ↦
            rw (e, server_name_extension)
              (ground (arith, name_loop-ne-stuck (length names) servername names (omega arith)))
      ]

  continue-ne-stuck :
      (l : Loop) (f : Bytes → Loop)
      → l ≢ stuck
      → ((s : Bytes) → f s ≢ stuck)
      → continue c l f ≢ stuck
  continue-ne-stuck stuck f h k = absurd (h refl)
  continue-ne-stuck returns_empty f h k = λ e. cc
  continue-ne-stuck (leaves s) f h k = k s

  extension_loop-ne-stuck :
      (fuel : ℕ) (servername b : Bytes)
      → length b ≤ fuel
      → extension_loop c fuel servername b ≢ stuck
  unfolding extension_loop
  extension_loop-ne-stuck zero servername [] h = λ e. cc
  extension_loop-ne-stuck (suc fuel) servername [] h = λ e. cc
  extension_loop-ne-stuck zero servername (x ∷ b) h = absurd (omega arith)
  extension_loop-ne-stuck (suc fuel) servername (x ∷ b) h =
      elim (Option-cases (c.read_uint16 (x ∷ b))) [
        | inl e ↦ rw (e, extension_loop) (λ k. cc)
        | inr ((t, rest), e) ↦ elim (Option-cases (c.read_uint16_length_prefixed rest)) [
          | inl g ↦ rw (e, g, extension_loop) (λ k. cc)
          | inr ((ext, rest'), g) ↦
              let short : length rest' ≤ fuel = omega (
                arith,
                d.read_uint16_only (x ∷ b) t rest e,
                d.read_uint16_length_prefixed_only rest ext rest' g,
              ) in
              rw (e, g, extension_loop)
                (continue-ne-stuck
                  (if t == 0 then server_name_extension c servername ext else leaves servername)
                  (λ name. extension_loop c fuel name rest')
                  (ground (arith, server_name_extension-ne-stuck servername ext))
                  (λ name. extension_loop-ne-stuck fuel name rest' short))
        ]
      ]

  -- Whatever bytes a client sends, the loops of the decoder come to an end within their fuel, where
  -- the reads behave as documented.
  pub server_name_loop-ne-stuck : (b : Bytes) → server_name_loop c (extensions_of c b) ≢ stuck
  unfolding server_name_loop
  server_name_loop-ne-stuck b = elim (Option-cases (extensions_of c b)) [
    | inl e ↦ rw e (λ k. cc)
    | inr (x, e) ↦ rw e (extension_loop-ne-stuck (length x) [] x (omega arith))
  ]
