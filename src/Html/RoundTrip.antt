-- ===== src/Html/RoundTrip.antt =====
-- The user interface parameters are read back as they were written.
use swift_go.Prelude.{◌≡◌, [], ◌∷◌, append_assoc, Bytes, ◌++◌}
use swift_go.Io.Encoding.{string_bytes, writers}
use swift_go.Io.RoundTrip.{Reads, read_string-Reads, read_byte-Reads, NoNull}
use swift_go.Html.{Html, write, set}

-- The parts, in order.
pub html_bytes : Html → Bytes
html_bytes h =
    string_bytes h.title
    ++ (string_bytes h.message
        ++ (string_bytes h.background_color
            ++ (string_bytes h.message_color ++ (string_bytes h.progress_color ++ h.flags ∷ []))))

pub write-append : (b : Bytes) (h : Html) → write b h ≡ b ++ html_bytes h
unfolding write html_bytes
write-append b h = simp writers

-- No text field holds the byte that ends it.
pub record IsWritable (h : Html) : Type 0 where
  pub title : NoNull h.title
  pub message : NoNull h.message
  pub background_color : NoNull h.background_color
  pub message_color : NoNull h.message_color
  pub progress_color : NoNull h.progress_color

pub set-Reads : (h : Html) → IsWritable h → Reads set (html_bytes h) h
unfolding set html_bytes
set-Reads h w rest = simp (
  append_assoc,
  read_string-Reads h.title w.title,
  read_string-Reads h.message w.message,
  read_string-Reads h.background_color w.background_color,
  read_string-Reads h.message_color w.message_color,
  read_string-Reads h.progress_color w.progress_color,
  read_byte-Reads h.flags,
)
