-- ===== src/Rest/Context.antt =====
-- ui/RestContext.cpp and ui/rest/loadHandler.cpp: the configuration that the web server has loaded. The
-- files and boost's splitting of a text are parameters.
use skweltch.Prelude.{
  ℕ, Bool, true, not, ◌||◌, Option, none, some, Bytes, codes, equal, ◌==◌, if◌then◌else◌, List, [],
  ◌∷◌, length,
}
use skweltch.Json.{Value}

-- `RestContext`
pub record RestContext (Real : Type 0) : Type 0 where
  pub loaded : Bool
  pub root : Value Real

-- What a handler answers: a status without a content, or `ok` with one.
pub data RestAnswer (Content : Type 0) : Type 0 where
  no_content bad_request : RestAnswer Content
  answered : Content → RestAnswer Content

module _ {Real : Type 0} where
  -- `load`, of what the file is read as; what a bad file leaves behind is an argument.
  unfoldable pub load :
      Option (Value Real) → Value Real → RestContext Real → RestContext Real × Bool
  load (some v) left context = (record { loaded = true; root = v }, true)
  load none left context = (record { loaded = context.loaded; root = left }, context.loaded)

  -- `loadHandler`, with the texts between the `&` of the arguments and between the `=` of one.
  unfoldable pub load_handler :
      (ℕ → Bytes → List Bytes)
      → (Bytes → Option (Value Real))
      → Value Real
      → Bytes
      → RestContext Real
      → RestContext Real × RestAnswer Bytes
  unfolding load
  load_handler split read left args context = elim (split b'&' args) [
    | [] ↦ (context, bad_request)
    | arg ∷ more ↦ elim (split b'=' arg) [
      | [] ↦ (context, bad_request)
      | name ∷ values ↦ elim values [
        | [] ↦ (context, bad_request)
        | file ∷ others ↦
            if not (length others == 0) || not (equal name (codes "file"))
            then (context, bad_request)
            else (let (after, good) = load (read file) left context in
                (after, if good then answered file else bad_request))
      ]
    ]
  ]
