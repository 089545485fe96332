-- ===== src/Http/Connection.antt =====
-- ui/connection.cpp: a connection of the web server. The asynchronous calls that a handler makes last
-- are its result, and what comes back from them is its argument.
use skweltch.Prelude.{ℕ, ◌≡◌, refl, sym, ap, ◌∙◌, Option, List, [], ◌∷◌, ◌++◌, Bytes}
use skweltch.Http.Parser.{
  Parsing, Outcome, indeterminate, accepted, rejected, no_header, overflow, parse,
}
use skweltch.Http.Parser.Safety.{resume, parse-append}
use skweltch.Http.Reply.{bad_request, Reply, to_buffers, stock_reply}
use skweltch.Http.Handler.{Handler, handle_request}

-- `boost::system::error_code`, as far as it is looked at.
pub data ErrorCode : Type 0 where
  success operation_aborted other_error : ErrorCode

pub data Action : Type 0 where
  async_read : Action
  async_write : List Bytes → Action
  -- `socket_.shutdown` first, if at all, and then `connection_manager_.stop`
  shut_and_stop : Action
  stop : Action
  no_action : Action

-- `request_parser_` with `request_`, `reply_`, and what the REST handlers share.
pub record Connection (Context : Type 0) : Type 0 where
  pub parser : Parsing
  pub reply : Reply
  pub context : Context

-- The connection and what it waits for; or what C++ leaves undefined.
pub data Handled (Context : Type 0) : Type 0 where
  then_do : Connection Context → Action → Handled Context
  undefined : Handled Context

-- On to the next read, if one is asked for.
abbrev pub if_reading :
    {Context : Type 0} → (Connection Context → Handled Context) → Handled Context → Handled Context
if_reading next (then_do c async_read) = next c
if_reading next (then_do c (async_write buffers)) = then_do c (async_write buffers)
if_reading next (then_do c shut_and_stop) = then_do c shut_and_stop
if_reading next (then_do c stop) = then_do c stop
if_reading next (then_do c no_action) = then_do c no_action
if_reading next undefined = undefined

abbrev pub concat : List Bytes → Bytes
concat [] = []
concat (b ∷ bs) = b ++ concat bs

module _ {Context : Type 0} (decimal : ℕ → Bytes) (files : Bytes → Option Bytes)
    (nodes : Handler Context) (load : (Bytes → Option Bytes) → Handler Context)
    (doc_root : Bytes) where
  pub respond : Outcome → Connection Context → Handled Context
  respond (indeterminate p) c = then_do (record c { parser = p }) async_read
  respond (accepted p) c =
      let (context, rep) =
        handle_request decimal files nodes load doc_root p.req c.context c.reply in
      then_do (record { parser = p; reply = rep; context = context }) (async_write (to_buffers rep))
  respond (rejected p) c =
      let rep = stock_reply decimal bad_request in
      then_do (record c { parser = p; reply = rep }) (async_write (to_buffers rep))
  respond no_header c = undefined
  respond overflow c = undefined

  unfoldable pub handle_read : ErrorCode → Bytes → Connection Context → Handled Context
  unfolding respond
  handle_read success bytes c = respond (parse bytes c.parser).0 c
  handle_read operation_aborted bytes c = then_do c no_action
  handle_read other_error bytes c = then_do c stop

  -- Reads that succeed, one after another for as long as the connection asks for more.
  pub serve : List Bytes → Connection Context → Handled Context
  unfolding handle_read
  serve [] c = then_do c async_read
  serve (b ∷ bs) c = if_reading (λ d. serve bs d) (handle_read success b c)

  respond-parser :
      (o : Outcome) (p : Parsing) (c : Connection Context)
      → respond o (record c { parser = p }) ≡ respond o c
  unfolding respond
  respond-parser (indeterminate q) p c = refl
  respond-parser (accepted q) p c = refl
  respond-parser (rejected q) p c = refl
  respond-parser no_header p c = refl
  respond-parser overflow p c = refl

  respond-resume :
      (o : Outcome) (rest : Bytes) (bs : List Bytes) (c : Connection Context)
      → ((d : Connection Context) → serve bs d ≡ handle_read success (concat bs) d)
      → if_reading (λ d. serve bs d) (respond o c) ≡ respond (resume (o, rest) (concat bs)).0 c
  unfolding respond handle_read
  respond-resume (indeterminate p) rest bs c h =
      h (record c { parser = p }) ∙ respond-parser (parse (concat bs) p).0 p c
  respond-resume (accepted p) rest bs c h = refl
  respond-resume (rejected p) rest bs c h = refl
  respond-resume no_header rest bs c h = refl
  respond-resume overflow rest bs c h = refl

  -- What a connection answers, and its state then, do not depend on how the network cuts the bytes of
  -- a request into reads.
  pub serve-concat :
      (bs : List Bytes) (c : Connection Context) → serve bs c ≡ handle_read success (concat bs) c
  unfolding serve handle_read
  serve-concat [] c = unfold parse respond in refl
  serve-concat (b ∷ bs) c =
      respond-resume (parse b c.parser).0 (parse b c.parser).1 bs c (λ d. serve-concat bs d)
      ∙ ap (λ (o : Outcome × Bytes). respond o.0 c) (sym (parse-append b (concat bs) c.parser))

pub handle_write : ErrorCode → Action
handle_write success = shut_and_stop
handle_write operation_aborted = no_action
handle_write other_error = stop
