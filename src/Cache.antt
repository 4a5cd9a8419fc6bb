-- ===== src/Cache.antt =====
-- What a stream keeps for players that join later: protocol/cache/gop.go and cache.go. The channel
-- that Send fills is the list of the packets in it and its capacity; nobody takes from it meanwhile.
use srtmp.Prelude.{
  ℕ, zero, suc, ◌+◌, ◌≤◌, ◌≡◌, refl, sym, ap, Bool, true, false, ◌&&◌, List, [], ◌∷◌, ◌++◌,
  append-nil, append_assoc, take, length, length-append, Option, none, some, ltb, ◌==◌,
  if◌then◌else◌, Result, ok, err, panic, failure, arith, Bool-cases, inl, inr,
}
use srtmp.Prelude.{lt→ltb, take-all}
use srtmp.Av.{Packet}
pub mod Joining

pub record GopCache : Type 0 where
  pub max_number : ℕ
  pub count : ℕ
  pub gops : List Packet

-- The parameter is not used: maxNumber stays 0.
unfoldable pub new_gop_cache : ℕ → GopCache
new_gop_cache max_number = record { max_number = 0; count = 0; gops = [] }

abbrev pub append_packet : Packet → GopCache → GopCache
append_packet p gc =
    if ltb gc.count gc.max_number
    then record gc { gops = gc.gops ++ (p ∷ []); count = gc.count + 1 }
    else gc

unfoldable pub write_gop : Packet → Bool → GopCache → GopCache
write_gop p key_frame gc =
    append_packet p (if key_frame then record gc { gops = []; count = 0 } else gc)

pub record Cache : Type 0 where
  pub gop : GopCache
  pub video_seq : Option Packet
  pub audio_seq : Option Packet
  pub metadata : Option Packet

unfoldable pub new_cache : ℕ → Cache
unfolding new_gop_cache
new_cache gop_num = record {
  gop = new_gop_cache gop_num;
  video_seq = none;
  audio_seq = none;
  metadata = none;
}

-- A key frame that is no sequence header is written twice.
unfoldable pub write_cache : Packet → Cache → Cache
write_cache p cache =
    if p.packet_type == 2
    then (if p.a_header.sound_format == 10 && p.a_header.aac_packet_type == 0
        then record cache { audio_seq = some p }
        else cache)
    else if p.packet_type == 1
    then (if p.v_header.codec_id == 7
        then (if p.v_header.frame_type == 1
            then (if p.v_header.avc_packet_type == 0
                then record cache { video_seq = some p; gop = write_gop p false cache.gop }
                else record cache { gop = write_gop p false (write_gop p true cache.gop) })
            else record cache { gop = write_gop p false cache.gop })
        else cache)
    else if p.packet_type == 3
    then record cache { metadata = some p }
    else cache

pub record Channel : Type 0 where
  pub capacity : ℕ
  pub queued : List Packet

abbrev pub enqueue : Packet → Channel → Channel
enqueue p c = record c { queued = c.queued ++ (p ∷ []) }

abbrev pub headers_of : Option Packet → List Packet
headers_of none = []
headers_of (some p) = p ∷ []

-- A full channel is an error for the headers, and drops a frame.
unfoldable pub send_headers : List Packet → Channel → Result (Unit {0}) × Channel
send_headers [] c = (ok tt, c)
send_headers (p ∷ ps) c =
    let rest = send_headers ps (enqueue p c) in
    if ltb (length c.queued) c.capacity then rest else (err failure, c)

unfoldable pub send_frames : List Packet → Channel → Channel
send_frames [] c = c
send_frames (p ∷ ps) c =
    send_frames ps (if ltb (length c.queued) c.capacity then enqueue p c else c)

abbrev pub after_headers : Result (Unit {0}) × Channel → List Packet → Result (Unit {0}) × Channel
after_headers (ok u, c) frames = (ok tt, send_frames frames c)
after_headers (err e, c) frames = (err e, c)
after_headers (panic, c) frames = (panic, c)

unfoldable pub send : Cache → Channel → Result (Unit {0}) × Channel
send cache c =
    after_headers
      (send_headers
        (headers_of cache.metadata ++ (headers_of cache.video_seq ++ headers_of cache.audio_seq)) c)
      cache.gop.gops
