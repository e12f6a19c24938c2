-- ===== src/Udp/Dispatch.antt =====
-- The fragments of a pack as datagrams on the wire, through process of
-- internal/netio/udp/processor.go to the pack that is dispatched.
use scouter_server_go.Common.{
  ℕ, suc, ◌^◌, ◌<◌, ◌==◌, ◌≡◌, refl, ap, ◌∙◌, ◌⊎◌, none, List, [], ◌∷◌, length, All, if◌then◌else◌,
  Bool, true, false,
}
use scouter_server_go.Protocol.Output.{◌⨾◌, write_int32}
use scouter_server_go.Protocol.Pack.Union.{Pack, write_pack}
use scouter_server_go.Protocol.Pack.RoundTrip.{IsPack, erase_pack}
use scouter_server_go.Udp.Multipacket.{MultiPacketProcessor, Added, waiting, done, crashed, find}
use scouter_server_go.Udp.Datagrams.{Fragment, udp_cafe_mtu, udp_java_mtu, packs_of, process}
use scouter_server_go.Udp.Fragments.{concat}
use scouter_server_go.Udp.Stream.{Datagram, handle, first, outcome, IsOf, Occurs, add_reassembles}
use scouter_server_go.Udp.Frames.{
  datagram, write_fragment, IsFragment, process-fragment, packs_of-done,
}

-- The fragment that a datagram carries, and the bytes of the datagram.
abbrev pub fragment_of : Datagram → Fragment
fragment_of d = record {
  obj_hash = d.obj_hash;
  pkid = d.pkid;
  total = d.total;
  num = d.num;
  body = d.body;
}

abbrev pub on_wire : ℕ → Datagram → List ℕ
on_wire cafe d = datagram (write_int32 cafe ⨾ write_fragment (fragment_of d))

abbrev pub or_packs : List Pack → List Pack → List Pack
or_packs [] later = later
or_packs (p ∷ ps) later = p ∷ ps

-- The first packs that a datagram of a packet makes `process` dispatch, in a stream of datagrams.
unfoldable pub dispatched : (cafe pkid : ℕ) → MultiPacketProcessor → List Datagram → List Pack
dispatched cafe pkid st [] = []
dispatched cafe pkid st (d ∷ ds) =
    let r = process d.now d.victim (on_wire cafe d) st in
    let later = dispatched cafe pkid r.1 ds in if d.pkid == pkid then or_packs r.0 later else later

-- The step of the stream, when the datagram goes through Add.
dispatched_step :
    (cafe pkid : ℕ) (st : MultiPacketProcessor) (d : Datagram) (ds : List Datagram)
    → (cafe ≡ udp_cafe_mtu) ⊎ (cafe ≡ udp_java_mtu)
    → IsFragment (fragment_of d)
    → dispatched cafe pkid st (d ∷ ds) ≡ (
        if d.pkid == pkid
        then or_packs (packs_of (handle d st).0) (dispatched cafe pkid (handle d st).1 ds)
        else dispatched cafe pkid (handle d st).1 ds)
unfolding dispatched handle
dispatched_step cafe pkid st d ds h v =
    rw (process-fragment d.now d.victim cafe (fragment_of d) st h v) refl

first_packs :
    (own : Bool) (r rest : Added) (bytes : List ℕ) (p : Pack) (ps later : List Pack)
    → packs_of (done bytes) ≡ p ∷ ps
    → (rest ≡ done bytes → later ≡ p ∷ ps)
    → (if own then first r rest else rest) ≡ done bytes
    → (if own then or_packs (packs_of r) later else later) ≡ p ∷ ps
unfolding packs_of
first_packs false r rest bytes p ps later packs go e = go e
first_packs true waiting rest bytes p ps later packs go e = go e
first_packs true (done b) rest bytes p ps later packs go e =
    ap (λ (x : Added). or_packs (packs_of x) later) e ∙ ap (λ xs. or_packs xs later) packs
first_packs true crashed rest bytes p ps later packs go e = absurd (cc)

dispatched-outcome :
    (cafe pkid : ℕ) (ds : List Datagram) (st : MultiPacketProcessor) (bytes : List ℕ) (p : Pack)
    (ps : List Pack)
    → (cafe ≡ udp_cafe_mtu) ⊎ (cafe ≡ udp_java_mtu)
    → All (λ d. IsFragment (fragment_of d)) ds
    → packs_of (done bytes) ≡ p ∷ ps
    → outcome pkid st ds ≡ done bytes
    → dispatched cafe pkid st ds ≡ p ∷ ps
unfolding outcome
dispatched-outcome cafe pkid [] st bytes p ps h v packs e = absurd (cc)
dispatched-outcome cafe pkid (d ∷ ds) st bytes p ps h v packs e =
    dispatched_step cafe pkid st d ds h v.0
    ∙ first_packs (d.pkid == pkid) (handle d st).0 (outcome pkid (handle d st).1 ds) bytes p ps _
        packs (dispatched-outcome cafe pkid ds (handle d st).1 bytes p ps h v.1 packs) e

-- A valid pack is cut into fewer than 2^15 fragments, and each of them occurs, in any order and any
-- number of times, in a stream of valid datagrams with the magic CAFM or JMTU, among arbitrary ones
-- of other packets that do not push the packet out of the full map, which has nothing of it at
-- first. Then the first packs that a datagram of the packet makes the server dispatch are that pack
-- alone (with its nil pointers and values as ReadPack gives them).
pub dispatched-fragments :
    (cafe pkid : ℕ) (frags : List (List ℕ)) (p : Pack) (ds : List Datagram)
    (st : MultiPacketProcessor)
    → (cafe ≡ udp_cafe_mtu) ⊎ (cafe ≡ udp_java_mtu)
    → concat frags ≡ datagram (write_pack p)
    → IsPack (suc (length (datagram (write_pack p)))) p
    → 0 < length frags
    → length frags < 2 ^ 15
    → All (λ d. IsFragment (fragment_of d)) ds
    → All (IsOf frags pkid) ds
    → find pkid st.packets ≡ none
    → ((i : ℕ) → i < length frags → Occurs pkid i ds)
    → dispatched cafe pkid st ds ≡ erase_pack p ∷ []
dispatched-fragments cafe pkid frags p ds st h cut valid some_frag small fragments own absent come =
    dispatched-outcome cafe pkid ds st (datagram (write_pack p)) (erase_pack p) [] h fragments
      (packs_of-done p valid)
      (add_reassembles frags pkid ds st some_frag small own absent come ∙ ap done cut)
