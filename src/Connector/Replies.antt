-- ===== src/Connector/Replies.antt =====
-- crates/rdpcore-connector/src/lib.rs: the messages that the server sends.
use kmsrdp.Prelude.{ℕ, ◌*◌, true, List, bit_or}
use kmsrdp.Pdu.X224.{wrap_data}
use kmsrdp.Pdu.Mcs.Domain.{encode_send_data, send_data_indication}
use kmsrdp.Pdu.ShareControl.{encode_deactivate_all}
use kmsrdp.Pdu.Capabilities.Server.{
  ServerCapabilities, fastpath_output_supported, scancodes, fastpath_input, fastpath_input_2,
  unicode, bitmap_codecs_default, encode_demand_active,
}
use kmsrdp.Pdu.Finalization.{
  ShareDataPduType, synchronize, control, font_map, save_session_info, stream_undefined, encode,
  encode_synchronize, encode_control, cooperate, granted_control, encode_font, font_map_default,
  encode_save_session_info_plain_notify,
}
use kmsrdp.Connector.{user_channel_id, io_channel_id, share_id, Acceptor}

unfoldable pub send_io_indication : List ℕ → List ℕ
send_io_indication body = wrap_data (
    encode_send_data send_data_indication (record {
      initiator = user_channel_id;
      channel_id = io_channel_id;
      payload = body;
      complete = true;
    }))

unfoldable pub server_capabilities : ℕ → ℕ → ServerCapabilities
server_capabilities desktop_width desktop_height = record {
  general = record {
    extra_flags = fastpath_output_supported;
    refresh_rect_support = true;
    suppress_output_support = true;
  };
  bitmap = record {
    preferred_bits_per_pixel = 32;
    desktop_width = desktop_width;
    desktop_height = desktop_height;
    desktop_resize_flag = true;
  };
  pointer = record { color_pointer_cache_size = 2048; pointer_cache_size = 2048 };
  input = record {
    input_flags = bit_or (bit_or (bit_or scancodes fastpath_input) fastpath_input_2) unicode;
    keyboard_layout = 0;
    keyboard_type = 0;
    keyboard_subtype = 0;
    keyboard_function_key = 0;
  };
  virtual_channel_flags = 0;
  max_request_size = 8 * 1024 * 1024;
  bitmap_codecs = bitmap_codecs_default;
}

unfoldable pub demand_active : Acceptor → List ℕ
demand_active acceptor =
    encode_demand_active share_id io_channel_id
      (server_capabilities acceptor.desktop_width acceptor.desktop_height)

unfoldable pub deactivate_all : List ℕ
deactivate_all = encode_deactivate_all share_id io_channel_id

unfoldable pub data_pdu_bytes : ShareDataPduType → List ℕ → List ℕ
data_pdu_bytes pdu_type2 body = encode (record {
  share_id = share_id;
  pdu_source = io_channel_id;
  stream_id = stream_undefined;
  pdu_type2 = pdu_type2;
  body = body;
})

unfoldable pub server_synchronize_pdu : List ℕ
server_synchronize_pdu = data_pdu_bytes synchronize (encode_synchronize user_channel_id)

unfoldable pub server_cooperate_pdu : List ℕ
server_cooperate_pdu =
    data_pdu_bytes control
      (encode_control (record { action = cooperate; grant_id = 0; control_id = 0 }))

unfoldable pub server_granted_control_pdu : List ℕ
server_granted_control_pdu = data_pdu_bytes control (
    encode_control (record {
      action = granted_control;
      grant_id = user_channel_id;
      control_id = user_channel_id;
    }))

unfoldable pub server_font_map_pdu : List ℕ
server_font_map_pdu = data_pdu_bytes font_map (encode_font font_map_default)

unfoldable pub server_save_session_info_plain_notify : List ℕ
server_save_session_info_plain_notify =
    data_pdu_bytes save_session_info encode_save_session_info_plain_notify
