-- ===== src/Cache/Joining.antt =====
-- What protocol/cache keeps, and what a player that joins a stream gets of it.
use srtmp.Prelude.{
  ℕ, zero, suc, ◌≤◌, ◌≡◌, refl, Bool, true, false, List, [], ◌∷◌, take, length, length-append,
  Option, some, ltb, if◌then◌else◌, arith, Bool-cases, inl, inr,
}
use srtmp.Prelude.{lt→ltb, take-all, ◌==◌, ◌&&◌}
use srtmp.Av.{Packet}
use srtmp.Cache.{GopCache, append_packet, write_gop, Cache, new_cache, write_cache}

-- The states that the packets of a stream bring a new cache to.
data Reached (gop_num : ℕ) : Cache → Type 0 where
  start : Reached gop_num (new_cache gop_num)
  packet :
      {cache : Cache} (p : Packet) → Reached gop_num cache → Reached gop_num (write_cache p cache)

write_gop-nothing :
    (p : Packet) (key : Bool) (gc : GopCache)
    → gc.max_number ≡ 0
    → gc.gops ≡ []
    → ((write_gop p key gc).max_number ≡ 0) × ((write_gop p key gc).gops ≡ [])
unfolding write_gop
write_gop-nothing p key gc m g = ground arith

write_cache-nothing :
    (p : Packet) (cache : Cache)
    → cache.gop.max_number ≡ 0
    → cache.gop.gops ≡ []
    → ((write_cache p cache).gop.max_number ≡ 0) × ((write_cache p cache).gop.gops ≡ [])
unfolding write_cache
write_cache-nothing p cache m g =
    let key = write_gop-nothing p true cache.gop m g in
    ground (
      arith,
      write_gop-nothing p false cache.gop m g,
      write_gop-nothing p false (write_gop p true cache.gop) key.0 key.1,
    )

nothing_kept :
    {gop_num : ℕ} {cache : Cache}
    → Reached gop_num cache
    → (cache.gop.max_number ≡ 0) × (cache.gop.gops ≡ [])
unfolding new_cache
nothing_kept start = (refl, refl)
nothing_kept (packet {cache = cache} p r) =
    let (m, g) = nothing_kept r in write_cache-nothing p cache m g

-- The number of packets is counted, and at most the maximum.
pub record IsCounted (gc : GopCache) : Type 0 where
  pub counted : gc.count ≡ length gc.gops
  pub few : length gc.gops ≤ gc.max_number

append_packet-IsCounted :
    (p : Packet) (gc : GopCache) → IsCounted gc → IsCounted (append_packet p gc)
append_packet-IsCounted p gc h = elim (Bool-cases (ltb gc.count gc.max_number)) [
  | inl room ↦ rw room (record {
    counted = omega (arith, length-append gc.gops (p ∷ []), h.counted);
    few = ground (arith, length-append gc.gops (p ∷ []), h.counted);
  })
  | inr full ↦ rw full h
]

-- Every write keeps the number of packets counted and at most the maximum, and after a key frame it is
-- the only packet, or there is none where the maximum is 0.
pub write_gop-IsCounted :
    (p : Packet) (key_frame : Bool) (gc : GopCache)
    → IsCounted gc
    → IsCounted (write_gop p key_frame gc)
      × ((write_gop p true gc).gops ≡ take gc.max_number (p ∷ []))
unfolding write_gop
write_gop-IsCounted p key_frame gc h = (counted_after key_frame, only gc.max_number)
  where
    cleared : GopCache
    cleared = record gc { gops = []; count = 0 }

    counted_after : (b : Bool) → IsCounted (append_packet p (if b then cleared else gc))
    counted_after true =
        append_packet-IsCounted p cleared (record { counted = refl; few = omega arith })
    counted_after false = append_packet-IsCounted p gc h

    only : (n : ℕ) → (append_packet p (record cleared { max_number = n })).gops ≡ take n (p ∷ [])
    only zero = refl
    only (suc n) = simp (lt→ltb 0 (suc n) (omega arith), take-all {A = Packet} n [] (omega arith))

-- The packets of a stream, written in turn.
unfoldable pub write_packets : List Packet → Cache → Cache
write_packets [] cache = cache
write_packets (p ∷ ps) cache = write_packets ps (write_cache p cache)

-- The last packet of a kind, or `o` where there is none.
unfoldable pub latest : (Packet → Bool) → Option Packet → List Packet → Option Packet
latest is o [] = o
latest is o (p ∷ ps) = latest is (if is p then some p else o) ps

-- The kinds of packets that a player needs before any frame.
abbrev pub is_metadata : Packet → Bool
is_metadata p = p.packet_type == 3

abbrev pub is_video_header : Packet → Bool
is_video_header p =
    p.packet_type == 1
    && (p.v_header.codec_id == 7 && (p.v_header.frame_type == 1 && p.v_header.avc_packet_type == 0))

abbrev pub is_audio_header : Packet → Bool
is_audio_header p =
    p.packet_type == 2 && (p.a_header.sound_format == 10 && p.a_header.aac_packet_type == 0)
