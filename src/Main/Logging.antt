-- ===== src/Main/Logging.antt =====
-- The log level of src/main.cpp, from its text in the settings.
use single_flight_proxy_serv.Prelude.{
  ℕ, ◌+◌, ◌≡◌, ◌≢◌, ◌↔◌, refl, sym, ap, ◌∙◌, ◌&&◌, ite, map, Bytes, Bytes-discrete, codes, leb,
  arith, if◌then◌else◌,
}

pub data Level : Type 0 where
  trace debug info warn err : Level

-- `std::tolower` in the "C" locale.
unfoldable pub to_lower : ℕ → ℕ
to_lower c = if leb b'A' c && leb c b'Z' then c + 32 else c

unfoldable pub level_of : Bytes → Level
unfolding Bytes-discrete
level_of text = ite (Bytes-discrete text (codes "trace")) trace (
    ite (Bytes-discrete text (codes "debug")) debug (
      ite (Bytes-discrete text (codes "info")) info (
        ite (Bytes-discrete text (codes "warn")) warn
          (ite (Bytes-discrete text (codes "error")) err info))))

unfoldable pub log_level : Bytes → Level
unfolding to_lower level_of
log_level text = level_of (map to_lower text)

-- The word for a level.
abbrev word : Level → Bytes
word trace = codes "trace"
word debug = codes "debug"
word info = codes "info"
word warn = codes "warn"
word err = codes "error"

level_of-word : (l : Level) → level_of (word l) ≡ l
unfolding level_of
level_of-word trace = refl
level_of-word debug = refl
level_of-word info = refl
level_of-word warn = refl
level_of-word err = refl

word-level_of : (text : Bytes) → level_of text ≢ info → text ≡ word (level_of text)
unfolding level_of
word-level_of text h = ground arith

-- The level is other than `info` exactly where the text, in lower case, is that level's word:
-- everything else means `info`.
pub log_level-word :
    (text : Bytes) (l : Level) → l ≢ info → (log_level text ≡ l) ↔ (map to_lower text ≡ word l)
unfolding log_level
log_level-word text l h = (
  λ e. word-level_of (map to_lower text) (λ i. h (sym e ∙ i)) ∙ ap word e,
  λ e. ap level_of e ∙ level_of-word l,
)
