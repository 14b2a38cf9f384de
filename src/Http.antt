-- ===== src/Http.antt =====
-- `fastapi.HTTPException`: what a handler raises.
use multimodal_content_moder.Common.{ℕ, String, Option, none, some}

pub record HttpError : Type 0 where
  pub status_code : ℕ
  pub detail : String

-- `{value}` of a value that may be None, in an f-string
abbrev pub show_option : Option String → String
show_option none = "None"
show_option (some s) = s
