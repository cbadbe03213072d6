-- ===== src/Bson/Document.antt =====
-- Documents as data, their encoding by the format's grammar, and the calls that write them.
use appoptics_apm_go.Base.{
  ℕ, ◌+◌, ◌%◌, ◌^◌, Bool, if◌then◌else◌, List, [], ◌∷◌, ◌++◌, Option, some, length,
}
use appoptics_apm_go.Base.Options.{◌>>=◌}
use appoptics_apm_go.Bson.{
  Buffer, bytes4, bytes8, is_small, new_buffer, finish, append_string, append_binary, append_int,
  append_float64, append_bool, append_start_object, append_start_array, append_finish_object,
}

mutual
  pub data Value : Type 0 where
    text binary : List ℕ → Value
    int float64 : ℕ → Value
    bool : Bool → Value
    object array : Elements → Value

  pub data Elements : Type 0 where
    no_more : Elements
    element : List ℕ → Value → Elements → Elements

-- A name is the kind, the bytes of the name and a zero.
abbrev pub header : ℕ → List ℕ → List ℕ
header kind k = kind ∷ k ++ (0 ∷ [])

-- A document is its length, with these four bytes and the zero at its end, and its elements.
abbrev pub framed : List ℕ → List ℕ
framed body = bytes4 ((length body + 5) % 2 ^ 32) ++ (body ++ (0 ∷ []))

unfoldable mutual
  pub encode_value : List ℕ → Value → List ℕ
  encode_value k (text v) = header 0x02 k ++ (bytes4 ((length v + 1) % 2 ^ 32) ++ (v ++ (0 ∷ [])))
  encode_value k (binary v) = header 0x05 k ++ (bytes4 (length v % 2 ^ 32) ++ (0 ∷ v))
  encode_value k (int v) =
      if is_small v then header 0x10 k ++ bytes4 (v % 2 ^ 32) else header 0x12 k ++ bytes8 v
  encode_value k (float64 bits) = header 0x01 k ++ bytes8 bits
  encode_value k (bool v) = header 0x08 k ++ ((if v then 1 else 0) ∷ [])
  encode_value k (object es) = header 0x03 k ++ framed (encode es)
  encode_value k (array es) = header 0x04 k ++ framed (encode es)

  pub encode : Elements → List ℕ
  encode no_more = []
  encode (element k v es) = encode_value k v ++ encode es

-- The calls of the encoder.
unfoldable mutual
  pub write_value : List ℕ → Value → Buffer → Option Buffer
  write_value k (text v) b = some (append_string k v b)
  write_value k (binary v) b = some (append_binary k v b)
  write_value k (int v) b = some (append_int k v b)
  write_value k (float64 bits) b = some (append_float64 k bits b)
  write_value k (bool v) b = some (append_bool k v b)
  write_value k (object es) b =
      let opened = append_start_object k b in
      write es opened.1 >>= λ b2. append_finish_object opened.0 b2
  write_value k (array es) b =
      let opened = append_start_array k b in
      write es opened.1 >>= λ b2. append_finish_object opened.0 b2

  pub write : Elements → Buffer → Option Buffer
  write no_more b = some b
  write (element k v es) b = write_value k v b >>= λ b2. write es b2

-- A whole document.
unfoldable pub write_document : Elements → Option Buffer
write_document es = write es new_buffer >>= λ b. finish b
