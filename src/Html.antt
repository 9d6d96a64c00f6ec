-- ===== src/Html.antt =====
-- html.go: the user interface parameters, their flags byte and their place in the buffer.
pub mod Flags
pub mod RoundTrip
pub mod WhiteSpace
use swift_go.Prelude.{
  ℕ, ◌-◌, ◌^◌, Bool, true, false, bit_and, bit_or, ltb, if◌then◌else◌, codes, Bytes, [],
}
use swift_go.Io.{◌>>=◌, Reader, pure, read_string, read_byte, write_string, write_byte}

abbrev pub flag_display_user_interface : ℕ
flag_display_user_interface = 0

abbrev pub flag_post_message_on_complete : ℕ
flag_post_message_on_complete = 1

abbrev pub flag_use_home_node : ℕ
flag_use_home_node = 2

abbrev pub flag_java_script : ℕ
flag_java_script = 3

pub record Html : Type 0 where
  pub title : Bytes
  pub message : Bytes
  pub background_color : Bytes
  pub message_color : Bytes
  pub progress_color : Bytes
  pub flags : ℕ

-- the zero value
abbrev pub empty_html : Html
empty_html = record {
  title = [];
  message = [];
  background_color = [];
  message_color = [];
  progress_color = [];
  flags = 0;
}

-- The flags are a byte, whose complement of one bit is 255 less that bit.
unfoldable pub set_bit : ℕ → Html → Html
set_bit pos h = record h { flags = bit_or h.flags (2 ^ pos) }

unfoldable pub clear_bit : ℕ → Html → Html
clear_bit pos h = record h { flags = bit_and h.flags (255 - 2 ^ pos) }

unfoldable pub has_bit : ℕ → Html → Bool
has_bit pos h = ltb 0 (bit_and h.flags (2 ^ pos))

unfoldable pub display_user_interface : Html → Bool
display_user_interface = has_bit flag_display_user_interface

unfoldable pub post_message_on_complete : Html → Bool
post_message_on_complete = has_bit flag_post_message_on_complete

unfoldable pub use_home_node : Html → Bool
use_home_node = has_bit flag_use_home_node

unfoldable pub java_script : Html → Bool
java_script = has_bit flag_java_script

unfoldable pub set_display_user_interface : Bool → Html → Html
set_display_user_interface v h =
    if v then set_bit flag_display_user_interface h else clear_bit flag_display_user_interface h

unfoldable pub set_post_message_on_complete : Bool → Html → Html
set_post_message_on_complete v h =
    if v then set_bit flag_post_message_on_complete h else clear_bit flag_post_message_on_complete h

unfoldable pub set_use_home_node : Bool → Html → Html
set_use_home_node v h = if v then set_bit flag_use_home_node h else clear_bit flag_use_home_node h

unfoldable pub set_java_script : Bool → Html → Html
set_java_script v h = if v then set_bit flag_java_script h else clear_bit flag_java_script h

abbrev pub bool_string : Bool → Bytes
bool_string b = if b then codes "true" else codes "false"

unfoldable pub display_user_interface_as_string : Html → Bytes
display_user_interface_as_string h = bool_string (display_user_interface h)

unfoldable pub post_message_on_complete_as_string : Html → Bytes
post_message_on_complete_as_string h = bool_string (post_message_on_complete h)

-- The source tests `PostMessageOnComplete` here.
unfoldable pub use_home_node_as_string : Html → Bytes
use_home_node_as_string h = bool_string (post_message_on_complete h)

unfoldable pub use_java_script_as_string : Html → Bytes
use_java_script_as_string h = bool_string (java_script h)

unfoldable pub write : Bytes → Html → Bytes
write b h =
    let b = write_string b h.title in
    let b = write_string b h.message in
    let b = write_string b h.background_color in
    let b = write_string b h.message_color in
    let b = write_string b h.progress_color in write_byte b h.flags

-- `set` overwrites every field of its receiver.
unfoldable pub set : Reader Html
set = do
  title ← read_string
  message ← read_string
  background_color ← read_string
  message_color ← read_string
  progress_color ← read_string
  flags ← read_byte
  pure (record {
    title = title;
    message = message;
    background_color = background_color;
    message_color = message_color;
    progress_color = progress_color;
    flags = flags;
  })
