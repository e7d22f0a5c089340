-- ===== src/Sniff/Target/Deadline.antt =====
-- Which way getSNITarget of pkg/muxtunnel.go leaves the read deadline of the connection.
use goreverselb.Base.{
  Bytes, List, arith, false, inl, inr, length, some, take_of_length-le, true, ℕ_discrete, ◌<◌, ◌∷◌,
  ◌≡◌, ◌≤◌, ◌⊎◌,
}
use goreverselb.Sniff.Cursor.{Cryptobyte}
use goreverselb.Sniff.Tls.{try_tls_decode}
use goreverselb.Sniff.Preamble.{try_proxy_decode}
use goreverselb.Sniff.Connect.{try_http_proxy_decode}
use goreverselb.Sniff.Target.{get_sni_target, read, Conn, Calls, decode}

module _ (c : Cryptobyte) where
  -- A packet that is no client hello with a name, but names an instance by a preamble or a CONNECT.
  abbrev pub NamedByProxy : Calls → Bytes → Type 0
  NamedByProxy k b =
      (length (try_tls_decode c b) ≡ 0)
      × ((0 < length (try_proxy_decode c b).0)
          ⊎ ((length (try_proxy_decode c b).0 ≡ 0)
              × (0 < length (try_http_proxy_decode k.writes b).0)))

  decode-armed :
      (k : Calls) (b : Bytes) (conn : Conn)
      → NamedByProxy k b
      → (decode c k b conn).1.deadline ≡ conn.deadline
  unfolding decode
  decode-armed k b conn h = ground arith

  decode-disarmed :
      (k : Calls) (b : Bytes) (conn : Conn)
      → k.disarms ≡ true
      → ¬ (NamedByProxy k b)
      → (decode c k b conn).1.deadline ≡ false
  unfolding decode
  decode-disarmed k b conn d h = ground arith

pub first_read :
    (chunk : Bytes) (chunks : List Bytes)
    → length chunk ≤ 1024
    → read 1024 (chunk ∷ chunks) ≡ some (chunk, chunks)
unfolding read
first_read chunk chunks h = ground (arith, take_of_length-le 1024 chunk h)

named_or : (c : Cryptobyte) (k : Calls) (b : Bytes) → NamedByProxy c k b ⊎ ¬ (NamedByProxy c k b)
named_or c k b = elim (ℕ_discrete (length (try_tls_decode c b)) 0) [
  | no n ↦ inr (λ h. n h.0)
  | yes e ↦ elim (ℕ_discrete (length (try_proxy_decode c b).0) 0) [
    | no n ↦ inl (e, inl (omega arith))
    | yes e' ↦ elim (ℕ_discrete (length (try_http_proxy_decode k.writes b).0) 0) [
      | no n ↦ inl (e, inr (e', omega arith))
      | yes z ↦ inr (λ h. elim h.1 [ inl l ↦ omega (arith, e', l) | inr l ↦ omega (arith, z, l.1) ])
    ]
  ]
]

-- Where the calls that arm and clear the read deadline succeed and the first packet has at most
-- 1024 bytes: if the packet is no client hello with a name and names an instance by a preamble or a
-- CONNECT request, the deadline is armed when getSNITarget returns, and otherwise it is cleared.
pub get_sni_target-deadline :
    (c : Cryptobyte) (k : Calls) (chunk : Bytes) (conn : Conn) (chunks : List Bytes)
    → k.arms ≡ true
    → k.disarms ≡ true
    → conn.incoming ≡ chunk ∷ chunks
    → length chunk ≤ 1024
    → (NamedByProxy c k chunk × ((get_sni_target c k conn).1.deadline ≡ true))
      ⊎ ((¬ NamedByProxy c k chunk) × ((get_sni_target c k conn).1.deadline ≡ false))
unfolding get_sni_target
get_sni_target-deadline c k chunk conn chunks a d e h = elim (named_or c k chunk) [
  | inl n ↦ inl (
    n,
    rw (a, e, first_read chunk chunks h)
        (decode-armed c k chunk (record conn { deadline = true; incoming = chunks }) n),
  )
  | inr n ↦ inr (
    n,
    rw (a, e, first_read chunk chunks h)
        (decode-disarmed c k chunk (record conn { deadline = true; incoming = chunks }) d n),
  )
]
