-- ===== src/Session/Replies.antt =====
-- redis_session.cpp: the texts of the replies, as bytes. What is printed with %s ends before its first
-- byte 0.
use Prim.Native.Char.{code}
use Prim.Native.String.{String}
use kvd.Base.{
  ℕ, zero, suc, ◌+◌, ◌/◌, ◌%◌, List, [], ◌∷◌, ◌++◌, ltb, ◌==◌, if◌then◌else◌, length, false, ◌≡◌,
  refl,
}
use kvd.Proto.{Status, okay, not_found, not_supported, invalid_argument, io_error}

-- The bytes of an ASCII text.
abbrev pub codes : String → List ℕ
codes String.[] = []
codes (String.◌∷◌ c s) = code c ∷ codes s

abbrev pub crlf : List ℕ
crlf = 13 ∷ 10 ∷ []

abbrev pub ok_text : List ℕ
ok_text = codes "+OK" ++ crlf

abbrev pub wrong_type : List ℕ
wrong_type = codes "-WRONGTYPE Operation against a key holding the wrong kind of value" ++ crlf

abbrev pub pong : List ℕ
pong = codes "+PONG" ++ crlf

abbrev pub null_text : List ℕ
null_text = codes "$-1" ++ crlf

-- A C string.
unfoldable pub c_str : List ℕ → List ℕ
c_str [] = []
c_str (c ∷ s) = let rest = c_str s in if c == 0 then [] else c ∷ rest

unfoldable pub err_text : List ℕ → List ℕ
err_text message = codes "-ERR " ++ (c_str message ++ crlf)

unfoldable pub unknown_command : List ℕ → List ℕ
unknown_command name = codes "-ERR unknown command `" ++ (c_str name ++ (codes "`" ++ crlf))

unfoldable pub wrong_number_arguments : List ℕ → List ℕ
wrong_number_arguments name =
    codes "-ERR wrong number of arguments for '" ++ (c_str name ++ (codes "' command" ++ crlf))

-- The message of a status behind the name of its code; the colon goes where there is none.
unfoldable pub described : List ℕ → List ℕ → List ℕ
described name [] = name
described name (c ∷ message) = name ++ (b':' ∷ c ∷ message)

-- Status::to_string
unfoldable pub to_string : Status → List ℕ
to_string okay = codes "ok"
to_string (not_found message) = described (codes "not found") (codes message)
to_string (not_supported message) = described (codes "not supported") (codes message)
to_string (invalid_argument message) = described (codes "invalid argument") (codes message)
to_string (io_error message) = described (codes "io error") (codes message)

-- The digits of a number behind those of `out`, of at most `fuel` digits.
unfoldable pub digits : ℕ → ℕ → List ℕ → List ℕ
digits zero n out = out
digits (suc fuel) n out =
    let more = digits fuel (n / 10) ((b'0' + n % 10) ∷ out) in if ltb 0 n then more else out

-- `%lu`; a uint64_t has twenty digits at most.
unfoldable pub decimal : ℕ → List ℕ
decimal n = if n == 0 then b'0' ∷ [] else digits 20 n []

-- The reply of get.
unfoldable pub bulk_text : List ℕ → List ℕ
bulk_text value = b'$' ∷ (decimal (length value) ++ (crlf ++ (c_str value ++ crlf)))

unfoldable pub element_text : List ℕ → List ℕ
element_text [] = b'$' ∷ (decimal 0 ++ crlf)
element_text (c ∷ str) = b'$' ∷ (decimal (suc (length str)) ++ (crlf ++ ((c ∷ str) ++ crlf)))

unfoldable pub element_texts : List (List ℕ) → List ℕ
element_texts [] = []
element_texts (str ∷ strs) = element_text str ++ element_texts strs

-- build_redis_string_array_reply, whose output starts empty
unfoldable pub array_text : List (List ℕ) → List ℕ
array_text strs = b'*' ∷ (decimal (length strs) ++ (crlf ++ element_texts strs))

-- No byte is 0.
unfoldable pub IsPrintable : List ℕ → Type 0
IsPrintable [] = Unit
IsPrintable (c ∷ name) = ((c == 0) ≡ false) × IsPrintable name

pub c_str-all : (name : List ℕ) → IsPrintable name → c_str name ≡ name
unfolding c_str IsPrintable
c_str-all [] p = refl
c_str-all (c ∷ name) (byte, p) = rw (byte, c_str-all name p) refl
