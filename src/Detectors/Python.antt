-- ===== src/Detectors/Python.antt =====
-- What the Python detectors share: their language, and the test for a route.
pub mod Timeouts
pub mod Swallow
pub mod Blocking
pub mod Routes
pub mod Below
use deslop.Prelude.{
  ℕ, Bool, true, false, ◌&&◌, ◌||◌, List, [], ◌∷◌, Text, codes, Option, none, some, Dict,
  starts_with, drop, length, any, ◌==◌, nat_eq,
}
use deslop.Texts.Strip.{lstrip}
use deslop.Pyast.Facts.{Function}

abbrev pub python : Text
python = codes "python"

abbrev pub route_attr : List Text
route_attr =
    codes "get"
    ∷ codes "post"
    ∷ codes "put"
    ∷ codes "patch"
    ∷ codes "delete"
    ∷ codes "route"
    ∷ codes "api_route"
    ∷ codes "websocket"
    ∷ []

-- `(get|…)\s*\(` at the beginning of the text, and after one of its dots.
unfoldable pub route_at : Text → Bool
route_at s =
    any (λ a. starts_with s a && starts_with (lstrip (drop (length a) s)) (codes "(")) route_attr

unfoldable pub route_after_dot : Text → Bool
route_after_dot [] = false
route_after_dot (c ∷ s) = (c == b'.' && route_at s) || route_after_dot s

unfoldable pub is_route : Function → Bool
unfolding route_at route_after_dot
is_route fn = any (λ dec. route_at dec || route_after_dot dec) fn.decorators
