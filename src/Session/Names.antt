-- ===== src/Session/Names.antt =====
-- The commands, results, status codes and keys of protocol/core/forward_conn.go and conn_client.go.
use Prim.Native.Char.{code}
use Prim.Native.String.{String}
use srtmp.Prelude.{ℕ, List, [], ◌∷◌}

-- The bytes of a text of ASCII characters.
abbrev codes : String → List ℕ
codes String.[] = []
codes (String.◌∷◌ c s) = code c ∷ codes s

abbrev pub cmd_connect : List ℕ
cmd_connect = codes "connect"

abbrev pub cmd_fcpublish : List ℕ
cmd_fcpublish = codes "FCPublish"

abbrev pub cmd_release_stream : List ℕ
cmd_release_stream = codes "releaseStream"

abbrev pub cmd_create_stream : List ℕ
cmd_create_stream = codes "createStream"

abbrev pub cmd_publish : List ℕ
cmd_publish = codes "publish"

abbrev pub cmd_play : List ℕ
cmd_play = codes "play"

abbrev pub publish_live : List ℕ
publish_live = codes "live"

abbrev pub resp_result : List ℕ
resp_result = codes "_result"

abbrev pub on_status : List ℕ
on_status = codes "onStatus"

abbrev pub publish_start : List ℕ
publish_start = codes "NetStream.Publish.Start"

abbrev pub play_start : List ℕ
play_start = codes "NetStream.Play.Start"

abbrev pub play_reset : List ℕ
play_reset = codes "NetStream.Play.Reset"

abbrev pub data_start : List ℕ
data_start = codes "NetStream.Data.Start"

abbrev pub publish_notify : List ℕ
publish_notify = codes "NetStream.Play.PublishNotify"

abbrev pub connect_success : List ℕ
connect_success = codes "NetConnection.Connect.Success"

abbrev pub key_app : List ℕ
key_app = codes "app"

abbrev pub key_type : List ℕ
key_type = codes "type"

abbrev pub key_flash_ver : List ℕ
key_flash_ver = codes "flashVer"

abbrev pub key_tc_url : List ℕ
key_tc_url = codes "tcUrl"

abbrev pub key_object_encoding : List ℕ
key_object_encoding = codes "objectEncoding"

abbrev pub key_fms_ver : List ℕ
key_fms_ver = codes "fmsVer"

abbrev pub key_capabilities : List ℕ
key_capabilities = codes "capabilities"

abbrev pub key_level : List ℕ
key_level = codes "level"

abbrev pub key_code : List ℕ
key_code = codes "code"

abbrev pub key_description : List ℕ
key_description = codes "description"

abbrev pub fms_version : List ℕ
fms_version = codes "FMS/3,0,1,123"

abbrev pub level_status : List ℕ
level_status = codes "status"

abbrev pub connection_succeeded : List ℕ
connection_succeeded = codes "Connection succeeded."

abbrev pub start_publishing : List ℕ
start_publishing = codes "Start publising."

abbrev pub playing_and_resetting : List ℕ
playing_and_resetting = codes "Playing and resetting stream."

abbrev pub started_playing : List ℕ
started_playing = codes "Started playing stream."

abbrev pub started_notify : List ℕ
started_notify = codes "Started playing notify."

abbrev pub nonprivate : List ℕ
nonprivate = codes "nonprivate"

abbrev pub client_version : List ℕ
client_version = codes "FMS.3.1"

abbrev pub slash : List ℕ
slash = codes "/"

abbrev pub method_play : List ℕ
method_play = codes "play"

abbrev pub method_publish : List ℕ
method_publish = codes "publish"
