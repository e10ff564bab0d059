-- ===== src/Tests/Streams.antt =====
-- Runs of the terminal filter.
use pi_remote.Prelude.{ℕ, ◌≡◌, refl, List, [], ◌∷◌, ◌++◌, arith}
use pi_remote.Ptymux.Sanitizer.{sanitize, new_sanitizer, esc, bel}
use pi_remote.Ptymux.Sanitizer.Chunks.{twice, sanitize-append}
use pi_remote.Ptymux.Sanitizer.Titles.{title_set, sanitize_nested}

abbrev text : List ℕ
text = b'h' ∷ b'i' ∷ []

sanitize-append_example :
    sanitize ((b'a' ∷ esc ∷ b']' ∷ []) ++ (b'0' ∷ b';' ∷ b'x' ∷ bel ∷ b'b' ∷ [])) new_sanitizer
    ≡ twice (b'a' ∷ esc ∷ b']' ∷ []) (b'0' ∷ b';' ∷ b'x' ∷ bel ∷ b'b' ∷ []) new_sanitizer
sanitize-append_example =
    sanitize-append (b'a' ∷ esc ∷ b']' ∷ []) (b'0' ∷ b';' ∷ b'x' ∷ bel ∷ b'b' ∷ []) new_sanitizer
      (λ e. refl)

sanitize_nested_example :
    (sanitize (esc ∷ b']' ∷ b'0' ∷ title_set (b'2' ∷ []) text) new_sanitizer).0
    ≡ esc ∷ b']' ∷ b'0' ∷ title_set (b'2' ∷ []) text
sanitize_nested_example = sanitize_nested b'2' text refl (
  λ e. omega (arith, e),
  λ e. omega (arith, e),
  (λ e. omega (arith, e), λ e. omega (arith, e), tt),
)
