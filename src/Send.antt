-- ===== src/Send.antt =====
-- util/send.cpp: a message of the values on the command line. Whether a text reads as an `int` is
-- boost::lexical_cast, the argument `to_int`; which calls a socket takes is `accepts`.
use skweltch.Prelude.{
  ◌≡◌, Bool, true, Option, none, some, List, [], ◌∷◌, map, Bytes, codes, equal, length, leb,
  if◌then◌else◌, ℤ, pos, Option-cases, arith,
}
use skweltch.Ports.{SocketCall, bind_to, connect_to}

-- A packed `int` and a packed `std::string`.
pub data Field : Type 0 where
  number : ℤ → Field
  text : Bytes → Field

-- What msgpack is given: a value, a pair, a tuple of three, or a vector.
pub data Packed : Type 0 where
  value : Field → Packed
  two : Field → Field → Packed
  three : Field → Field → Field → Packed
  many : List Field → Packed

-- `try`, of what throws no other than `bad_lexical_cast`, and its handler.
abbrev pub catch : {A : Type 0} → Option A → A → A
catch (some a) handler = a
catch none handler = handler

-- How the program ends, with the call of the socket that it has made last.
pub data Sent : Type 0 where
  exits : ℤ → Sent
  sent : SocketCall → Packed → Sent

abbrev bind_option : {A B : Type 0} → Option A → (A → Option B) → Option B
bind_option none next = none
bind_option (some a) next = next a

module _ (to_int : Bytes → Option ℤ) where
  -- `packval`, `packpair` and `packtuple`
  unfoldable pub pack_val : Bytes → Packed
  pack_val s = catch (bind_option (to_int s) λ v. some (value (number v))) (value (text s))

  unfoldable pub pack_pair : Bytes → Bytes → Packed
  pack_pair s1 s2 =
      catch
        (bind_option (to_int s1) λ v1. some (
          catch (bind_option (to_int s2) λ v2. some (two (number v1) (number v2)))
            (two (number v1) (text s2))))
        (catch (bind_option (to_int s2) λ v2. some (two (text s1) (number v2)))
          (two (text s1) (text s2)))

  unfoldable pub pack_tuple : Bytes → Bytes → Bytes → Packed
  pack_tuple s1 s2 s3 =
      catch
        (bind_option (to_int s1) λ v1. some (
          catch
            (bind_option (to_int s2) λ v2. some (
              catch (bind_option (to_int s3) λ v3. some (three (number v1) (number v2) (number v3)))
                (three (number v1) (number v2) (text s3))))
            (catch (bind_option (to_int s3) λ v3. some (three (number v1) (text s2) (number v3)))
              (three (number v1) (text s2) (text s3)))))
        (catch
          (bind_option (to_int s2) λ v2. some (
            catch (bind_option (to_int s3) λ v3. some (three (text s1) (number v2) (number v3)))
              (three (text s1) (number v2) (text s3))))
          (catch (bind_option (to_int s3) λ v3. some (three (text s1) (text s2) (number v3)))
            (three (text s1) (text s2) (text s3))))

  -- The `switch` over the number of arguments, from the fourth on.
  unfoldable pub pack_args : Bytes → List Bytes → Packed
  unfolding pack_val pack_pair pack_tuple
  pack_args a [] = pack_val a
  pack_args a (b ∷ []) = pack_pair a b
  pack_args a (b ∷ c ∷ []) = pack_tuple a b c
  pack_args a (b ∷ c ∷ d ∷ rest) = many (map text (a ∷ b ∷ c ∷ d ∷ rest))

  abbrev pub try_call : (SocketCall → Bool) → SocketCall → Packed → Sent
  try_call accepts call p = if accepts call then sent call p else exits (pos 1)

  -- `main`, with its arguments after the name of the program.
  unfoldable pub send_main : (SocketCall → Bool) → List Bytes → Sent
  unfolding pack_args
  send_main accepts (how ∷ port ∷ a ∷ rest) =
      if equal how (codes "bind")
      then try_call accepts (bind_to port) (pack_args a rest)
      else if equal how (codes "connect")
      then try_call accepts (connect_to port) (pack_args a rest)
      else exits (pos 1)
  send_main accepts _ = exits (pos 1)

  -- The call that the first two arguments ask for.
  abbrev pub chosen : Bytes → Bytes → Option SocketCall
  chosen how port =
      if equal how (codes "bind")
      then some (bind_to port)
      else if equal how (codes "connect")
      then some (connect_to port)
      else none

  -- What each text is sent as when there are no more than three, and when there are more.
  abbrev pub field_of : Bytes → Field
  field_of s = catch (bind_option (to_int s) λ v. some (number v)) (text s)

  abbrev pub fields : Packed → List Field
  fields (value x) = x ∷ []
  fields (two x y) = x ∷ y ∷ []
  fields (three x y z) = x ∷ y ∷ z ∷ []
  fields (many xs) = xs

  abbrev pub fields_of : List Bytes → List Field
  fields_of texts = if leb (length texts) 3 then map field_of texts else map text texts

  pub pack_args-fields :
      (a : Bytes) (rest : List Bytes) → fields (pack_args a rest) ≡ fields_of (a ∷ rest)
  unfolding pack_args pack_val pack_pair pack_tuple
  pack_args-fields a [] = ground (arith, Option-cases (to_int a))
  pack_args-fields a (b ∷ []) = ground (arith, Option-cases (to_int a), Option-cases (to_int b))
  pack_args-fields a (b ∷ c ∷ []) =
      ground (arith, Option-cases (to_int a), Option-cases (to_int b), Option-cases (to_int c))
  pack_args-fields a (b ∷ c ∷ d ∷ rest) = ground arith

  -- With `bind` or `connect`, a port whose call the socket takes and at least one text, one message is
  -- sent, with a field for each text in their order: up to three texts are each sent as an `int`
  -- exactly if that text reads as one, whatever the others are, and more than three all as texts.
  pub send_main-fields :
      (accepts : SocketCall → Bool) (how port a : Bytes) (rest : List Bytes) (call : SocketCall)
      → chosen how port ≡ some call
      → accepts call ≡ true
      → (p : Packed) × (send_main accepts (how ∷ port ∷ a ∷ rest) ≡ sent call p)
        × (fields p ≡ fields_of (a ∷ rest))
  unfolding send_main
  send_main-fields accepts how port a rest call h k =
      (pack_args a rest, ground arith, pack_args-fields a rest)
