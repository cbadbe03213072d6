-- ===== src/Bson/Written.antt =====
-- The calls of the encoder write the format's encoding.
use mathlib.Core.List.{append_assoc, append-nil}
use appoptics_apm_go.Base.{
  ℕ, suc, ◌+◌, ◌-◌, ◌%◌, ◌^◌, ◌≡◌, refl, ap, sym, ◌∙◌, true, false, ltb, lt→ltb, Bool-cases, inl,
  inr, List, [], ◌∷◌, ◌++◌, some, length, length-append, set, arith,
}
use appoptics_apm_go.Bson.{
  Buffer, bytes4, bytes8, is_small, new_buffer, finish, add_bytes, add_int32, add_int64, add_c_str,
  add_str, add_binary, add_elem_name, reserve_int32, set_int32, append_string, append_binary,
  append_int, append_int32, append_int64, append_float64, append_bool, append_start_object,
  append_start_array, append_finish_object,
}
use appoptics_apm_go.Bson.Document.{
  Value, Elements, header, framed, encode_value, encode, write_value, write, write_document,
}
use appoptics_apm_go.Bson.Document.Value.{text, binary, int, float64, bool, object, array}
use appoptics_apm_go.Bson.Document.Elements.{no_more, element}

set4 :
    (before rest : List ℕ) (a b c d : ℕ)
    → set
        (set
          (set (set (before ++ (0 ∷ 0 ∷ 0 ∷ 0 ∷ rest)) (length before) a) (suc (length before)) b)
          (suc (suc (length before)))
          c)
        (suc (suc (suc (length before))))
        d
      ≡ before ++ (a ∷ b ∷ c ∷ d ∷ rest)
set4 [] rest a b c d = refl
set4 (x ∷ before) rest a b c d = ap (◌∷◌ x) (set4 before rest a b c d)

set_reserved :
    (v : ℕ) (before rest : List ℕ)
    → set_int32 (length before) v (before ++ (0 ∷ 0 ∷ 0 ∷ 0 ∷ rest))
      ≡ some (before ++ (bytes4 v ++ rest))
unfolding set_int32
set_reserved v before rest = rw fits (ap some (set4 before rest _ _ _ _))
  where
    fits : ltb (length before + 3) (length (before ++ (0 ∷ 0 ∷ 0 ∷ 0 ∷ rest))) ≡ true
    fits = lt→ltb _ _ (omega (arith, length-append before (0 ∷ 0 ∷ 0 ∷ 0 ∷ rest)))

close_object :
    (before body : List ℕ)
    → append_finish_object (length before) (before ++ (0 ∷ 0 ∷ 0 ∷ 0 ∷ body))
      ≡ some (before ++ framed body)
unfolding append_finish_object add_bytes
close_object before body =
    rw (append_assoc before (0 ∷ 0 ∷ 0 ∷ 0 ∷ body) (0 ∷ []), size)
      (set_reserved ((length body + 5) % 2 ^ 32) before (body ++ (0 ∷ [])))
  where
    size : length (before ++ (0 ∷ 0 ∷ 0 ∷ 0 ∷ (body ++ (0 ∷ [])))) - length before ≡ length body + 5
    size = omega (
      arith,
      length-append before (0 ∷ 0 ∷ 0 ∷ 0 ∷ (body ++ (0 ∷ []))),
      length-append body (0 ∷ []),
    )

add_elem_name-header :
    (kind : ℕ) (k : List ℕ) (b : Buffer) → add_elem_name kind k b ≡ b ++ header kind k
unfolding add_elem_name add_bytes
add_elem_name-header kind k b =
    append_assoc (b ++ (kind ∷ [])) k (0 ∷ []) ∙ append_assoc b (kind ∷ []) (k ++ (0 ∷ []))

-- The body of an object or an array, between its opening and its closing.
close_at :
    (kind : ℕ) (k : List ℕ) (b : Buffer) (body : List ℕ)
    → append_finish_object
        (length (add_elem_name kind k b))
        ((add_elem_name kind k b ++ (0 ∷ 0 ∷ 0 ∷ 0 ∷ [])) ++ body)
      ≡ some (b ++ (header kind k ++ framed body))
close_at kind k b body = rw (append_assoc (add_elem_name kind k b) (0 ∷ 0 ∷ 0 ∷ 0 ∷ []) body) (
    close_object (add_elem_name kind k b) body
    ∙ ap some (
        ap (λ (n : List ℕ). n ++ framed body) (add_elem_name-header kind k b)
        ∙ append_assoc b (header kind k) (framed body)))

-- An appended value with its name.
named_bytes :
    (kind : ℕ) (k : List ℕ) (b : Buffer) (v : List ℕ)
    → add_elem_name kind k b ++ v ≡ b ++ (header kind k ++ v)
named_bytes kind k b v =
    ap (λ (n : List ℕ). n ++ v) (add_elem_name-header kind k b) ∙ append_assoc b (header kind k) v

mutual
  unfolding write_value write encode_value encode append_string add_str add_c_str append_binary
      add_binary append_int append_int32 append_int64 append_float64 append_bool add_int32 add_int64
      add_bytes append_start_object append_start_array reserve_int32

  write_value-encode :
      (k : List ℕ) (v : Value) (b : Buffer) → write_value k v b ≡ some (b ++ encode_value k v)
  write_value-encode k (text v) b = ap some (
      append_assoc (add_elem_name 0x02 k b ++ bytes4 _) v (0 ∷ [])
      ∙ append_assoc (add_elem_name 0x02 k b) (bytes4 _) (v ++ (0 ∷ []))
      ∙ named_bytes 0x02 k b _)
  write_value-encode k (binary v) b = ap some (
      append_assoc (add_elem_name 0x05 k b ++ bytes4 _) (0 ∷ []) v
      ∙ append_assoc (add_elem_name 0x05 k b) (bytes4 _) (0 ∷ v)
      ∙ named_bytes 0x05 k b _)
  write_value-encode k (int v) b = elim (Bool-cases (is_small v)) [
    | inl e ↦ rw e (ap some (named_bytes 0x10 k b (bytes4 (v % 2 ^ 32))))
    | inr e ↦ rw e (ap some (named_bytes 0x12 k b (bytes8 v)))
  ]
  write_value-encode k (float64 bits) b = ap some (named_bytes 0x01 k b (bytes8 bits))
  write_value-encode k (bool true) b = ap some (named_bytes 0x08 k b (1 ∷ []))
  write_value-encode k (bool false) b = ap some (named_bytes 0x08 k b (0 ∷ []))
  write_value-encode k (object es) b =
      rw (write-encode es (add_elem_name 0x03 k b ++ (0 ∷ 0 ∷ 0 ∷ 0 ∷ [])))
        (close_at 0x03 k b (encode es))
  write_value-encode k (array es) b =
      rw (write-encode es (add_elem_name 0x04 k b ++ (0 ∷ 0 ∷ 0 ∷ 0 ∷ [])))
        (close_at 0x04 k b (encode es))

  write-encode : (es : Elements) (b : Buffer) → write es b ≡ some (b ++ encode es)
  write-encode no_more b = ap some (sym (append-nil b))
  write-encode (element k v es) b = rw (write_value-encode k v b) (
      write-encode es (b ++ encode_value k v)
      ∙ ap some (append_assoc b (encode_value k v) (encode es)))

finish-close : (b : Buffer) → finish b ≡ append_finish_object 0 b
unfolding finish append_finish_object add_bytes
finish-close b = ap (λ (n : ℕ). set_int32 0 (n % 2 ^ 32) (b ++ (0 ∷ []))) (omega arith)

-- Where a document is written by the encoder's calls, no write is out of bounds, and the buffer is
-- the document's encoding by the format: each length, of the whole and of every nested object or
-- array, counts the bytes of its part.
pub write_document_lem : (es : Elements) → write_document es ≡ some (framed (encode es))
unfolding write_document new_buffer reserve_int32 add_bytes
write_document_lem es =
    rw (write-encode es (0 ∷ 0 ∷ 0 ∷ 0 ∷ []))
      (finish-close (0 ∷ 0 ∷ 0 ∷ 0 ∷ encode es) ∙ close_object [] (encode es))
