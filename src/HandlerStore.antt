-- ===== src/HandlerStore.antt =====
-- handlerStore.go: what a storage node does with an operation that has arrived, from the choice of
-- the next node to the page that is sent.
mod Environment
mod Choice
mod Pages
pub mod NextNode
pub mod Hops
pub mod Outcome
pub mod HttpCookies
pub mod Carried
unfoldable pub use Environment.*
unfoldable pub use Choice.*
unfoldable pub use Pages.*
use swift_go.Prelude.{Bool, Option, none, some, Bytes}
use swift_go.Io.{Time}
use swift_go.Node.{Node, Gcm, Zlib}
use swift_go.Configuration.{Configuration}
use swift_go.Operation.{Operation}

module _ (w : World) (g : Gcm) (z : Zlib) (c : Configuration) where
  unfoldable pub respond : Time → Option Node → Bool → Operation → Reply
  respond now home any_cookies o = elim (next_action c now o) [
    | to_complete ↦ store_complete w g z c now any_cookies o
    | to_done ↦ store_done w g z c now home any_cookies o
    | to_continue ↦ store_continue w g z c now home any_cookies o
  ]

  abbrev respond_to : Time → Option Node → Bool → Option Operation → Reply
  respond_to now home any_cookies none = panicked
  respond_to now home any_cookies (some o) = respond now home any_cookies o

  -- the handler from the arrived operation on: the reply, and the previous node as it is left
  unfoldable pub handle_store :
      Time → (Bytes → Option Node) → Bool → Operation → Reply × Option Node
  handle_store now get_node any_cookies arrived =
      let prev = prev_node_of get_node arrived in
      let o = with_prev_node prev arrived in
      let home = home_node_of get_node o in
      (respond_to now home any_cookies (with_next_node w c now home o), touched now prev)
