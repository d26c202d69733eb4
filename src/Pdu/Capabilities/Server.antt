-- ===== src/Pdu/Capabilities/Server.antt =====
-- capability_sets.rs: the sets that the server sends, and the Demand Active around them.
use kmsrdp.Prelude.{
  ℕ, ◌+◌, ◌%◌, Bool, true, false, not, List, ◌++◌, length, replicate, ltb, ◌==◌, bit_or,
}
use kmsrdp.Pdu.Result.{Result, ok, invalid_value, guard, ◌>>=◌, ◌>>◌}
use kmsrdp.Pdu.Cursor.{
  new, read_u8, read_u16_le, read_u32_le, read_slice, write_u8, write_u16_le, write_u32_le,
}
use kmsrdp.Pdu.ShareControl as Control
use kmsrdp.Pdu.Capabilities.{
  write_capset, clamp, nscodec_guid, capset_general, capset_bitmap, capset_order, capset_pointer,
  capset_input, capset_virtual_channel, capset_multifragment_update, capset_surface_commands,
  capset_bitmap_codecs,
}

unfoldable pub bool_as_int : Bool → ℕ
bool_as_int true = 1
bool_as_int false = 0

pub record GeneralCapability : Type 0 where
  pub extra_flags : ℕ
  pub refresh_rect_support : Bool
  pub suppress_output_support : Bool

abbrev pub fastpath_output_supported : ℕ
fastpath_output_supported = 1

unfoldable pub encode_general : GeneralCapability → List ℕ
encode_general x =
    write_u16_le 1
    ++ (write_u16_le 3
        ++ (write_u16_le 0x0200
            ++ (write_u16_le 0
                ++ (write_u16_le 0
                    ++ (write_u16_le x.extra_flags
                        ++ (write_u16_le 0
                            ++ (write_u16_le 0
                                ++ (write_u16_le 0
                                    ++ (write_u8 (bool_as_int x.refresh_rect_support)
                                        ++ write_u8 (bool_as_int x.suppress_output_support))))))))))

unfoldable pub decode_general : List ℕ → Result GeneralCapability
decode_general body = do
  (_os_major_type, c) ← read_u16_le (new body)
  (_os_minor_type, c) ← read_u16_le c
  (_protocol_version, c) ← read_u16_le c
  (_pad, c) ← read_u16_le c
  (compression_types, c) ← read_u16_le c
  guard (compression_types == 0) (invalid_value "general_capability.compression_types" "must be 0")
  (extra_flags, c) ← read_u16_le c
  (_update_capability_flag, c) ← read_u16_le c
  (_remote_unshare_flag, c) ← read_u16_le c
  (_general_compression_level, c) ← read_u16_le c
  (refresh_rect_support, c) ← read_u8 c
  (suppress_output_support, _c) ← read_u8 c
  ok (record {
    extra_flags = extra_flags;
    refresh_rect_support = not (refresh_rect_support == 0);
    suppress_output_support = not (suppress_output_support == 0);
  })

pub record BitmapCapability : Type 0 where
  pub preferred_bits_per_pixel : ℕ
  pub desktop_width : ℕ
  pub desktop_height : ℕ
  pub desktop_resize_flag : Bool

abbrev pub draw_allow_skip_alpha : ℕ
draw_allow_skip_alpha = 0x08

unfoldable pub encode_bitmap : BitmapCapability → List ℕ
encode_bitmap x =
    write_u16_le x.preferred_bits_per_pixel
    ++ (write_u16_le 1
        ++ (write_u16_le 1
            ++ (write_u16_le 1
                ++ (write_u16_le x.desktop_width
                    ++ (write_u16_le x.desktop_height
                        ++ (write_u16_le 0
                            ++ (write_u16_le (bool_as_int x.desktop_resize_flag)
                                ++ (write_u16_le 1
                                    ++ (write_u8 0
                                        ++ (write_u8 draw_allow_skip_alpha
                                            ++ (write_u16_le 1 ++ write_u16_le 0)))))))))))

unfoldable pub decode_bitmap : List ℕ → Result BitmapCapability
decode_bitmap body = do
  (preferred_bits_per_pixel, c) ← read_u16_le (new body)
  (_receive_1, c) ← read_u16_le c
  (_receive_4, c) ← read_u16_le c
  (_receive_8, c) ← read_u16_le c
  (desktop_width, c) ← read_u16_le c
  (desktop_height, c) ← read_u16_le c
  (_pad, c) ← read_u16_le c
  (desktop_resize_flag, c) ← read_u16_le c
  (compression_flag, c) ← read_u16_le c
  guard (not (compression_flag == 0))
      (invalid_value "bitmap_capability.compression_flag" "must be nonzero")
  (_high_color_flags, c) ← read_u8 c
  (_drawing_flags, c) ← read_u8 c
  (_multiple_rectangle_support, c) ← read_u16_le c
  (_pad2, _c) ← read_u16_le c
  ok (record {
    preferred_bits_per_pixel = preferred_bits_per_pixel;
    desktop_width = desktop_width;
    desktop_height = desktop_height;
    desktop_resize_flag = not (desktop_resize_flag == 0);
  })

unfoldable pub encode_order : List ℕ
encode_order =
    replicate 16 0
    ++ (write_u32_le 0
        ++ (write_u16_le 1
            ++ (write_u16_le 20
                ++ (write_u16_le 0
                    ++ (write_u16_le 1
                        ++ (write_u16_le 0
                            ++ (write_u16_le 0x0002
                                ++ (replicate 32 0
                                    ++ (write_u16_le 0
                                        ++ (write_u16_le 0
                                            ++ (write_u32_le 0
                                                ++ (write_u32_le 0
                                                    ++ (write_u16_le 0
                                                        ++ (write_u16_le 0
                                                            ++ (write_u16_le 0
                                                            ++ write_u16_le 0)))))))))))))))

unfoldable pub decode_order : List ℕ → Result (Unit {0})
decode_order body = do
  guard (not (ltb (length body) 84))
      (invalid_value "order_capability" "body shorter than the fixed 84-byte layout")
  ok tt

pub record PointerCapability : Type 0 where
  pub color_pointer_cache_size : ℕ
  pub pointer_cache_size : ℕ

unfoldable pub encode_pointer : PointerCapability → List ℕ
encode_pointer x =
    write_u16_le 1 ++ (write_u16_le x.color_pointer_cache_size ++ write_u16_le x.pointer_cache_size)

unfoldable pub decode_pointer : List ℕ → Result PointerCapability
decode_pointer body = do
  (_color_pointer_flag, c) ← read_u16_le (new body)
  (color_pointer_cache_size, c) ← read_u16_le c
  (pointer_cache_size, _c) ← read_u16_le c
  ok (record {
    color_pointer_cache_size = color_pointer_cache_size;
    pointer_cache_size = pointer_cache_size;
  })

pub record InputCapability : Type 0 where
  pub input_flags : ℕ
  pub keyboard_layout : ℕ
  pub keyboard_type : ℕ
  pub keyboard_subtype : ℕ
  pub keyboard_function_key : ℕ

abbrev pub scancodes : ℕ
scancodes = 0x0001

abbrev pub fastpath_input : ℕ
fastpath_input = 0x0008

abbrev pub unicode : ℕ
unicode = 0x0010

abbrev pub fastpath_input_2 : ℕ
fastpath_input_2 = 0x0020

unfoldable pub encode_input : InputCapability → List ℕ
encode_input x =
    write_u16_le x.input_flags
    ++ (write_u16_le 0
        ++ (write_u32_le x.keyboard_layout
            ++ (write_u32_le x.keyboard_type
                ++ (write_u32_le x.keyboard_subtype
                    ++ (write_u32_le x.keyboard_function_key ++ replicate 64 0)))))

unfoldable pub decode_input : List ℕ → Result InputCapability
decode_input body = do
  (input_flags, c) ← read_u16_le (new body)
  (_pad, c) ← read_u16_le c
  (keyboard_layout, c) ← read_u32_le c
  (keyboard_type, c) ← read_u32_le c
  (keyboard_subtype, c) ← read_u32_le c
  (keyboard_function_key, c) ← read_u32_le c
  (_ime_file_name, _c) ← read_slice 64 c
  ok (record {
    input_flags = input_flags;
    keyboard_layout = keyboard_layout;
    keyboard_type = keyboard_type;
    keyboard_subtype = keyboard_subtype;
    keyboard_function_key = keyboard_function_key;
  })

-- The virtual channel flags, and the largest request of a fragmented update.
unfoldable pub encode_u32_body : ℕ → List ℕ
encode_u32_body value = write_u32_le value

unfoldable pub encode_surface_commands : List ℕ
encode_surface_commands = write_u32_le (bit_or (bit_or 0x02 0x10) 0x40) ++ write_u32_le 0

pub record BitmapCodecsCapability : Type 0 where
  pub nscodec_id : ℕ
  pub color_loss_level : ℕ

unfoldable pub bitmap_codecs_default : BitmapCodecsCapability
bitmap_codecs_default = record { nscodec_id = 1; color_loss_level = 3 }

unfoldable pub encode_bitmap_codecs : BitmapCodecsCapability → List ℕ
encode_bitmap_codecs x =
    write_u8 1
    ++ (nscodec_guid
        ++ (write_u8 x.nscodec_id
            ++ (write_u16_le 3
                ++ (write_u8 1 ++ (write_u8 1 ++ write_u8 (clamp x.color_loss_level 1 7))))))

pub record ServerCapabilities : Type 0 where
  pub general : GeneralCapability
  pub bitmap : BitmapCapability
  pub pointer : PointerCapability
  pub input : InputCapability
  pub virtual_channel_flags : ℕ
  pub max_request_size : ℕ
  pub bitmap_codecs : BitmapCodecsCapability

-- The sets in their order, and how many they are.
unfoldable pub write_list : ServerCapabilities → List ℕ × ℕ
write_list x = (
  write_capset capset_general (encode_general x.general)
      ++ (write_capset capset_bitmap (encode_bitmap x.bitmap)
          ++ (write_capset capset_order encode_order
              ++ (write_capset capset_pointer (encode_pointer x.pointer)
                  ++ (write_capset capset_input (encode_input x.input)
                      ++ (write_capset capset_virtual_channel
                            (encode_u32_body x.virtual_channel_flags)
                          ++ (write_capset capset_multifragment_update
                                (encode_u32_body x.max_request_size)
                              ++ (write_capset capset_surface_commands encode_surface_commands
                                  ++ write_capset capset_bitmap_codecs
                                      (encode_bitmap_codecs x.bitmap_codecs)))))))),
  9,
)

unfoldable pub encode_demand_active : ℕ → ℕ → ServerCapabilities → List ℕ
encode_demand_active share_id pdu_source capabilities =
    let (capsets, count) = write_list capabilities in
    Control.with_header
      (record { pdu_type = Control.demand_active; pdu_source = pdu_source; share_id = share_id })
      (write_u16_le 1
        ++ (write_u16_le ((2 + 2 + length capsets) % 0x1_0000)
            ++ (write_u8 0
                ++ (write_u16_le count ++ (write_u16_le 0 ++ (capsets ++ write_u32_le 0))))))
