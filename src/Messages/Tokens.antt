-- ===== src/Messages/Tokens.antt =====
-- FdbMsgTokens (public/fdbus/CFdbIfMsgTokens.h): its one member is an array of texts.
use fdbus.Prelude.{ℕ, Bool, List, []}
use fdbus.Parcelable.{Parcelable, text, array}
use fdbus.Parcelable.Arrays.{array_format, array-Implements}
use fdbus.Parcelable.Codec.{Format, Implements, text_format, text-Implements}

abbrev pub tokens : Bool → Parcelable (List (List ℕ))
tokens little = array little (text little)

abbrev pub tokens_format : Format (List (List ℕ))
tokens_format = array_format [] text_format

pub tokens-Implements : (little : Bool) → Implements (tokens little) tokens_format
tokens-Implements little = array-Implements little (text-Implements little)
