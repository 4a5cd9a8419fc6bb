-- ===== src/Stream/Handler.antt =====
-- The type StreamHandler of protocol/stream_handler.go: the streams by their keys. The goroutine that
-- AddReader or AddWriter starts is what HandleConnect leaves to be done.
use srtmp.Prelude.{ℕ, List, [], ◌∷◌, ◌++◌, Option, none, some, if◌then◌else◌, map}
use srtmp.Amf.{same}
use srtmp.Session.Server.{ForwardConnect, get_stream_info}
use srtmp.Stream.Writer.{StreamWriter, new_stream_writer}
use srtmp.Stream.Reader.{StreamReader, new_stream_reader}
use srtmp.Stream.Loop.{RtmpStream, StreamInfo, new_stream}

pub record StreamHandler : Type 0 where
  pub streams : List (List ℕ × RtmpStream)

-- fmt.Sprintf("%s_%s", streamInfo.App, streamInfo.Name)
unfoldable pub stream_key : StreamInfo → List ℕ
stream_key info = info.app ++ (95 ∷ info.name)

unfoldable pub find_stream : List ℕ → List (List ℕ × RtmpStream) → Option RtmpStream
unfolding same
find_stream key [] = none
find_stream key ((k, s) ∷ m) = if same k key then some s else find_stream key m

-- streams[key] = stream
unfoldable pub save_stream :
    List ℕ → RtmpStream → List (List ℕ × RtmpStream) → List (List ℕ × RtmpStream)
unfolding same
save_stream key s [] = (key, s) ∷ []
save_stream key s ((k, t) ∷ m) = if same k key then (k, s) ∷ m else (k, t) ∷ save_stream key s m

-- delete(streams, key)
unfoldable pub delete_stream : List ℕ → List (List ℕ × RtmpStream) → List (List ℕ × RtmpStream)
unfolding same
delete_stream key [] = []
delete_stream key ((k, s) ∷ m) =
    if same k key then delete_stream key m else (k, s) ∷ delete_stream key m

unfoldable pub get_or_create : ℕ → StreamInfo → StreamHandler → RtmpStream × StreamHandler
unfolding stream_key find_stream save_stream
get_or_create now info h = elim (find_stream (stream_key info) h.streams) [
  | some s ↦ (s, h)
  | none ↦ (
    new_stream now info,
    record h { streams = save_stream (stream_key info) (new_stream now info) h.streams },
  )
]

unfoldable pub remove_stream : List ℕ → StreamHandler → StreamHandler
unfolding delete_stream
remove_stream key h = record h { streams = delete_stream key h.streams }

unfoldable pub get_streams : StreamHandler → List RtmpStream
get_streams h = map (λ (e : List ℕ × RtmpStream). e.1) h.streams

-- What waits to be sent to the stream's readerChan or writerChan.
pub data Joining : Type 0 where
  reader_for : List ℕ → StreamReader → Joining
  writer_for : List ℕ → StreamWriter → Joining

abbrev pub info_of : ForwardConnect → StreamInfo
info_of conn = let i = get_stream_info conn in record { app = i.0; name = i.1; url = i.2 }

unfoldable pub handle_connect : ℕ → ForwardConnect → StreamHandler → Joining × StreamHandler
unfolding get_or_create get_stream_info
handle_connect now conn h =
    let info = info_of conn in
    let next = (get_or_create now info h).1 in
    if conn.is_publisher
    then (reader_for (stream_key info) (new_stream_reader now conn), next)
    else (writer_for (stream_key info) (new_stream_writer now conn), next)
