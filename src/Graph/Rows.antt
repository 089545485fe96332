-- ===== src/Graph/Rows.antt =====
-- The edges and the rows of the dot file, each between two places of a reader of its tags.
use skweltch.Prelude.{
  ◌≡◌, refl, Bool, true, false, List, [], ◌∷◌, Bytes, codes, equal, if◌then◌else◌, ◌∙◌,
}
use skweltch.Graph.{
  write_table_header, write_edge, write_node_info_row, write_node_config_row, first_row, close_rows,
}
use skweltch.Stream.{Writing, ◌>>=◌}
use skweltch.Graph.Tags.{Reader, outside, read_char, read_tags, skip-plain, is_plain, Draws}

-- A drawing without a value, between two places of the reader.
abbrev pub Turns : Reader → Writing Unit → Reader → Type 0
Turns q m r = Draws (λ a. Unit) q m (λ a. r)

pub write_edge-Turns :
    (from to fromlabel tolabel : Bytes) (samehead : Bool)
    → is_plain from ≡ true
    → is_plain to ≡ true
    → is_plain fromlabel ≡ true
    → is_plain tolabel ≡ true
    → Turns (outside []) (write_edge from to fromlabel tolabel samehead) (outside [])
unfolding ◌>>=◌ write_edge read_tags read_char
write_edge-Turns from to fromlabel tolabel true f t fl tl = record {
  ends = λ a e. (
    skip-plain from _ [] f
        ∙ (skip-plain to _ [] t ∙ (skip-plain fromlabel _ [] fl ∙ skip-plain tolabel _ [] tl)),
    tt,
  );
}
write_edge-Turns from to fromlabel tolabel false f t fl tl = record {
  ends = λ a e. (
    skip-plain from _ [] f
        ∙ (skip-plain to _ [] t ∙ (skip-plain fromlabel _ [] fl ∙ skip-plain tolabel _ [] tl)),
    tt,
  );
}

-- The names of the elements around the rows.
abbrev pub rows_in : List Bytes
rows_in = codes "TABLE" ∷ codes "TD" ∷ codes "TR" ∷ codes "TABLE" ∷ [] ∷ []

abbrev pub inner : Bool → List Bytes
inner any = if any then rows_in else codes "TD" ∷ codes "TR" ∷ codes "TABLE" ∷ [] ∷ []

pub write_node_info_row-Turns :
    (name value : Bytes)
    → is_plain name ≡ true
    → is_plain value ≡ true
    → Turns (outside rows_in) (write_node_info_row name value) (outside rows_in)
unfolding ◌>>=◌ write_node_info_row read_tags read_char equal
write_node_info_row-Turns name value n v = record {
  ends = λ a e. (skip-plain name _ _ n ∙ skip-plain value _ _ v, tt);
}

pub write_node_config_row-Turns :
    (name value : Bytes)
    → is_plain name ≡ true
    → is_plain value ≡ true
    → Turns (outside rows_in) (write_node_config_row name value) (outside rows_in)
unfolding ◌>>=◌ write_node_config_row read_tags read_char equal
write_node_config_row-Turns name value n v = record {
  ends = λ a e. (skip-plain name _ _ n ∙ skip-plain value _ _ v, tt);
}

pub first_row-Turns : (any : Bool) → Turns (outside (inner any)) (first_row any) (outside rows_in)
unfolding ◌>>=◌ first_row write_table_header read_tags read_char equal
first_row-Turns true = record { ends = λ a e. (refl, tt) }
first_row-Turns false = record { ends = λ a e. (refl, tt) }

pub close_rows-Turns :
    (any : Bool) → Turns (outside (inner any)) (close_rows any) (outside (inner false))
unfolding ◌>>=◌ close_rows read_tags read_char equal
close_rows-Turns true = record { ends = λ a e. (refl, tt) }
close_rows-Turns false = record { ends = λ a e. (refl, tt) }
