-- ===== src/Bson/Runs.antt =====
-- A document with a nested object, and the theorem at a concrete input.
use appoptics_apm_go.Base.{◌≡◌, refl, true, [], ◌∷◌, some}
use appoptics_apm_go.Base.Text.{codes}
use appoptics_apm_go.Bson.{
  new_buffer, finish, add_bytes, add_int32, add_c_str, add_str, add_elem_name, reserve_int32,
  set_int32, append_string, append_int, append_int32, append_bool, append_start_object,
  append_finish_object,
}
use appoptics_apm_go.Bson.Document.{Elements, framed, encode, write_value, write, write_document}
use appoptics_apm_go.Bson.Document.Value.{text, int, bool, object}
use appoptics_apm_go.Bson.Document.Elements.{no_more, element}
use appoptics_apm_go.Bson.Written.{write_document_lem}

abbrev document : Elements
document = element (codes "a") (int 7) (
    element (codes "o") (object (element (codes "s") (text (codes "x")) no_more))
      (element (codes "b") (bool true) no_more))

bytes_of_document :
    write_document document
    ≡ some (
        33 ∷ 0 ∷ 0 ∷ 0 ∷ 16 ∷ 97 ∷ 0 ∷ 7 ∷ 0 ∷ 0 ∷ 0 ∷ 3 ∷ 111 ∷ 0 ∷ 14 ∷ 0 ∷ 0 ∷ 0 ∷ 2 ∷ 115 ∷ 0
        ∷ 2 ∷ 0 ∷ 0 ∷ 0 ∷ 120 ∷ 0 ∷ 0 ∷ 8 ∷ 98 ∷ 0 ∷ 1 ∷ 0 ∷ [])
unfolding write_document write write_value new_buffer finish add_bytes add_int32 add_c_str add_str
    add_elem_name reserve_int32 set_int32 append_string append_int append_int32 append_bool
    append_start_object append_finish_object
bytes_of_document = refl

write_document_lem_example : write_document document ≡ some (framed (encode document))
write_document_lem_example = write_document_lem document
