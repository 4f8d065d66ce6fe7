-- ===== src/Datahub/Reading.antt =====
-- librcom/src/datahub.c: what a read waits for, and the addresses of the links after it.
use rcom.Datalink.Delivery.{taken}
use rcom.Base.{
  lt→ltb, arith, ==_true, le→ltb, List, none, some, inl, inr, refl, sym, [], ◌≡◌, ◌∷◌, ◌∙◌, Bytes,
  Bool-cases, length, ltb, suc,
}
use rcom.Addr.{Addr}
use rcom.Rlib.{Lists}
use rcom.Data.{udp_read, Data, datagram}
use rcom.Datalink.{Wire}
use rcom.Datahub.{
  Link, Hub, Recv, failed, received, read_links, datahub_read, datahub_broadcast_locked,
  broadcast_to, remove_all,
}

module _ (L : Lists Link) where
  read_links_waits :
      (ls : List Link) (hub : Hub) (calls : List (Link × Data)) (rs : List Recv)
      → (read_links L ls hub calls rs).waits ≡ ltb (length rs) (length ls)
  unfolding read_links
  read_links_waits [] hub calls rs = sym (le→ltb (length rs) 0 (omega arith))
  read_links_waits (l ∷ ls) hub calls [] = sym (lt→ltb 0 (suc (length ls)) (omega arith))
  read_links_waits (l ∷ ls) hub calls (failed ∷ rs) = read_links_waits ls _ calls rs ∙ ground arith
  read_links_waits (l ∷ ls) hub calls (received a b ∷ rs) =
      read_links_waits ls _ _ rs ∙ ground arith

  -- One call of `datahub_read` reads as many packets as the hub has links: where fewer are there, it
  -- waits in `recvfrom`, with the hub locked.
  pub read_waits :
      (hub : Hub) (rs : List Recv)
      → (datahub_read L hub rs).waits ≡ ltb (length rs) (length hub.links)
  unfolding datahub_read
  read_waits hub rs = read_links_waits hub.links hub [] rs

  module _ (W : Wire) where
    one_broadcast :
        (l : Link) (input packet : Data) (sent : List (Addr × Bytes)) (b : Bytes)
        → datagram packet ≡ some b
        → (hub' : Hub) × (datahub_broadcast_locked W L
              (record { links = l ∷ []; input = input; sent = sent })
              none
              packet
              none
            ≡ some hub')
          × (hub'.sent ≡ (l.addr, b) ∷ sent)
    unfolding datahub_broadcast_locked broadcast_to
    one_broadcast l input packet sent b d = elim (Bool-cases (W.sendto ((l.addr, b) ∷ sent))) [
      | inl u ↦ (
        record { links = l ∷ []; input = input; sent = (l.addr, b) ∷ sent },
        rw (datahub_broadcast_locked, broadcast_to, taken W sent l.addr packet b d, u) refl,
        refl,
      )
      | inr u ↦ (
        record {
          links = remove_all W L (L.list_prepend [] l) (l ∷ []);
          input = input;
          sent = (l.addr, b) ∷ sent;
        },
        rw (datahub_broadcast_locked, broadcast_to, taken W sent l.addr packet b d, u) refl,
        refl,
      )
    ]

    -- Let a hub have one link, to which any program sends a packet: after it has been read, the packets
    -- that the hub broadcasts go to the address of that program, not to that of the link.
    pub read_redirects :
        (l : Link) (input packet : Data) (sent : List (Addr × Bytes)) (sender : Addr)
        (bytes b : Bytes)
        → datagram packet ≡ some b
        → let hub : Hub = record { links = l ∷ []; input = input; sent = sent } in
          (hub' : Hub) × (datahub_broadcast_locked W L
              (datahub_read L hub (received sender bytes ∷ [])).hub
              none
              packet
              none
            ≡ some hub')
          × (hub'.sent ≡ (sender, b) ∷ sent)
    unfolding datahub_read read_links
    read_redirects l input packet sent sender bytes b d =
        rw (==_true l.pointer l.pointer refl) (
          one_broadcast (record l { addr = sender }) (udp_read input (some bytes)).1 packet sent b
            d)
