-- ===== src/Reqctx/Trust.antt =====
-- Whose word X-Forwarded-For is: what a client writes there itself does not change its address.
use nina.Prelude.{
  ℕ, arith, ◌≡◌, refl, true, false, Option, none, some, List, [], ◌∷◌, ◌++◌, if◌then◌else◌, Str,
  lit, nat_beq, split, trim_space, same_str, onto_first, Option-cases, inl, inr,
}
use nina.Http.{get}
use nina.Scanguard.Guard.{Ip, Net}
use nina.Reqctx.{Request, peer_of, in_any, rightmost, is_trusted, is_empty, client_ip}

-- Splitting text around a separator.
split-cons : (c : ℕ) (s : Str) → (p : Str) × (ps : List Str) × (split c s ≡ p ∷ ps)
unfolding split
split-cons c [] = ([], [], refl)
split-cons c (d ∷ s) =
    elim (nat_beq d c)
      as (λ b.
        (p : Str) × (ps : List Str) × ((if b then [] ∷ split c s else onto_first d (split c s))
          ≡ p ∷ ps)) [
            | true ↦ ([], split c s, refl)
            | false ↦ let (p, ps, e) = split-cons c s in (d ∷ p, ps, rw (e) refl)
          ]

onto_first-append :
    (d : ℕ) (xs ys : List Str) (p : Str) (ps : List Str)
    → xs ≡ p ∷ ps
    → onto_first d (xs ++ ys) ≡ onto_first d xs ++ ys
onto_first-append d xs ys p ps e = rw (e) refl

split-append : (c : ℕ) (s t : Str) → split c (s ++ c ∷ t) ≡ split c s ++ split c t
unfolding split
split-append c [] t = ground arith
split-append c (d ∷ s) t =
    let (p, ps, e) = split-cons c s in
    ground (arith, split-append c s t, onto_first-append d (split c s) (split c t) p ps e)

module _ (net : Net) (trusted : List (Ip × ℕ)) where
  rightmost-append :
      (early late : List Str) (ip : Ip)
      → rightmost net trusted late ≡ some ip
      → rightmost net trusted (early ++ late) ≡ some ip
  unfolding rightmost
  rightmost-append [] late ip e = e
  rightmost-append (p ∷ early) late ip e = ground (arith, rightmost-append early late ip e)

  -- The address is none of the trusted proxies'.
  rightmost-untrusted :
      (parts : List Str) (ip : Ip)
      → rightmost net trusted parts ≡ some ip
      → in_any trusted ip ≡ false
  unfolding rightmost
  rightmost-untrusted [] ip e = ground arith
  rightmost-untrusted (p ∷ parts) ip e = elim (Option-cases (rightmost net trusted parts)) [
    | inl f ↦ elim (Option-cases (net.parse_ip (trim_space p))) [
      | inl g ↦ ground arith
      | inr (q, g) ↦ ground arith
    ]
    | inr (q, f) ↦ rightmost-untrusted parts ip (ground arith)
  ]

not_blank : (s t : Str) (c : ℕ) → same_str (s ++ c ∷ t) [] ≡ false
unfolding same_str
not_blank [] t c = refl
not_blank (d ∷ s) t c = refl

none_trusted :
    (net : Net) (trusted : List (Ip × ℕ)) (ip : Option Ip)
    → is_empty net trusted ≡ true
    → is_trusted net trusted ip ≡ false
unfolding in_any
none_trusted net [] none e = refl
none_trusted net [] (some ip) e = refl
none_trusted net (n ∷ ns) ip e = ground arith

-- Behind a trusted proxy, the address of the client is the last one in X-Forwarded-For that is not
-- a trusted proxy's, whatever the client has put before it; from a peer that is not trusted it is
-- the peer's own.
pub client_ip-unforgeable :
    (net : Net) (r : Request) (trusted : List (Ip × ℕ)) (forged honest : Str) (ip : Ip)
    → get (lit "X-Forwarded-For") r.header ≡ forged ++ b',' ∷ honest
    → rightmost net trusted (split b',' honest) ≡ some ip
    → (client_ip net r trusted ≡ (
        if is_trusted net trusted (net.parse_ip (peer_of r)) then net.print_ip ip else peer_of r))
      × (in_any trusted ip ≡ false)
unfolding client_ip
client_ip-unforgeable net r trusted forged honest ip h e =
    let s = split-append b',' forged honest in
    let q = rightmost-append net trusted (split b',' forged) (split b',' honest) ip e in
    let t = none_trusted net trusted (net.parse_ip (peer_of r)) in
    let b = not_blank forged honest b',' in
    (rw (h, b, s, q) ground arith, rightmost-untrusted net trusted (split b',' honest) ip e)
