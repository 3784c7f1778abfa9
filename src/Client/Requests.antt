-- ===== src/Client/Requests.antt =====
-- The requests that the client makes of a line.
use exchnage_simulator.Prelude.{
  codes, ℕ, ◌≡◌, refl, ◌∙◌, false, some, List, [], ◌∷◌, ◌++◌, ◌==◌, if◌then◌else◌, done,
}
use exchnage_simulator.Core.{buy, sell}
use exchnage_simulator.Wire.{
  new_order_request, modify_order_request, cancel_order_request, new_order_request_bytes,
  modify_order_request_bytes, cancel_order_request_bytes,
}
use exchnage_simulator.Client.Text.{◌>>=◌, same_text, is_space}
use exchnage_simulator.Client.Fields.{
  read_new_fields, read_modify_fields, read_cancel_fields, NewFields, ModifyFields,
}
use exchnage_simulator.Client.Session.{Client, prints, unknown_internal_id, send_or_stop}
use exchnage_simulator.Client.Console.{
  clean_commas, new_order_of, modify_order_of, cancel_order_of, exchange_id, on_new, send_for,
  on_modify, on_cancel, on_action, on_request, is_quit, is_comment, on_line,
}
use exchnage_simulator.Client.Numbers.{value, IsNumber}
use exchnage_simulator.Client.Lines.{
  behind, AreFields, cleaned, cleaned-AreCleaned, read_uint-behind, read_word-behind,
  clean_commas-line, read_word-line,
}

-- A line that begins with one of the three actions.
module _ (fs : List (List ℕ × List ℕ)) (h : AreFields fs) (c : Client) where
  on_line-request :
      (a : ℕ)
      → (a == b',') ≡ false
      → is_space a ≡ false
      → is_comment ((a ∷ []) ++ behind fs) ≡ false
      → is_quit ((a ∷ []) ++ behind fs) ≡ false
      → on_line ((a ∷ []) ++ behind fs) c ≡ on_action (a ∷ []) (behind (cleaned fs)) c
  unfolding on_line on_request
  on_line-request a plain word live going =
      rw
        (
          on_line,
          live,
          going,
          clean_commas-line a fs plain h,
          on_request,
          read_word-line a fs word h,
        )
        refl

  on_line-N : on_line (codes "N" ++ behind fs) c ≡ on_new (behind (cleaned fs)) c
  unfolding on_action same_text is_comment is_quit is_space
  on_line-N = on_line-request b'N' refl refl refl refl

  on_line-M : on_line (codes "M" ++ behind fs) c ≡ on_modify (behind (cleaned fs)) c
  unfolding on_action same_text is_comment is_quit is_space
  on_line-M = on_line-request b'M' refl refl refl refl

  on_line-C : on_line (codes "C" ++ behind fs) c ≡ on_cancel (behind (cleaned fs)) c
  unfolding on_action same_text is_comment is_quit is_space
  on_line-C = on_line-request b'C' refl refl refl refl

module _ (g1 id g2 sym g3 side g4 price g5 qty : List ℕ) where
  abbrev pub new_line : List (List ℕ × List ℕ)
  new_line = (g1, id) ∷ (g2, sym) ∷ (g3, side) ∷ (g4, price) ∷ (g5, qty) ∷ []

  abbrev pub new_fields : NewFields
  new_fields = record {
    internal_id = value 0 id;
    symbol_id = value 0 sym;
    side_text = side;
    price = value 0 price;
    qty = value 0 qty;
  }

  module _ (h : AreFields new_line) (n1 : IsNumber 64 id) (n2 : IsNumber 32 sym)
      (n4 : IsNumber 32 price) (n5 : IsNumber 32 qty) where
    read_new_line : read_new_fields (behind (cleaned new_line)) ≡ some (new_fields, [])
    unfolding read_new_fields
    read_new_line =
        let k = cleaned-AreCleaned new_line h in
        let f5 : List (List ℕ × List ℕ) = (clean_commas g5, qty) ∷ [] in
        let f4 : List (List ℕ × List ℕ) = (clean_commas g4, price) ∷ f5 in
        let f3 : List (List ℕ × List ℕ) = (clean_commas g3, side) ∷ f4 in
        let f2 : List (List ℕ × List ℕ) = (clean_commas g2, sym) ∷ f3 in
        rw
          (
            read_new_fields,
            ◌>>=◌,
            read_uint-behind (clean_commas g1) f2 64 id k n1,
            read_uint-behind (clean_commas g2) f3 32 sym k.2 n2,
            read_word-behind (clean_commas g3) f4 side k.2.2 h.2.2.1,
            read_uint-behind (clean_commas g4) f5 32 price k.2.2.2 n4,
            read_uint-behind (clean_commas g5) [] 32 qty k.2.2.2.2 n5,
          )
          refl

    -- A line `N id symbol side price qty`, with spaces or commas between, whose numbers are decimal
    -- and fit their types, sends the new-order request with these numbers; the side is a purchase if
    -- the word is BUY and a sale for every other word.
    pub on_line-new :
        (c : Client)
        → on_line (codes "N" ++ behind new_line) c
          ≡ send_or_stop
              (new_order_request_bytes (record {
                header = record { length = 24; type = new_order_request };
                client_order_id = value 0 id;
                symbol_id = value 0 sym;
                side = if same_text side (codes "BUY") then buy else sell;
                price = value 0 price;
                qty = value 0 qty;
              }))
              c
    unfolding on_new new_order_of
    on_line-new c = on_line-N new_line h c ∙ rw (on_new, read_new_line) refl

module _ (g1 id g2 sym g3 price g4 qty : List ℕ) where
  abbrev pub modify_line : List (List ℕ × List ℕ)
  modify_line = (g1, id) ∷ (g2, sym) ∷ (g3, price) ∷ (g4, qty) ∷ []

  abbrev modify_fields : ModifyFields
  modify_fields = record {
    internal_id = value 0 id;
    symbol_id = value 0 sym;
    price = value 0 price;
    qty = value 0 qty;
  }

  module _ (h : AreFields modify_line) (n1 : IsNumber 64 id) (n2 : IsNumber 32 sym)
      (n3 : IsNumber 32 price) (n4 : IsNumber 32 qty) where
    read_modify_line : read_modify_fields (behind (cleaned modify_line)) ≡ some (modify_fields, [])
    unfolding read_modify_fields
    read_modify_line =
        let k = cleaned-AreCleaned modify_line h in
        let f4 : List (List ℕ × List ℕ) = (clean_commas g4, qty) ∷ [] in
        let f3 : List (List ℕ × List ℕ) = (clean_commas g3, price) ∷ f4 in
        let f2 : List (List ℕ × List ℕ) = (clean_commas g2, sym) ∷ f3 in
        rw
          (
            read_modify_fields,
            ◌>>=◌,
            read_uint-behind (clean_commas g1) f2 64 id k n1,
            read_uint-behind (clean_commas g2) f3 32 sym k.2 n2,
            read_uint-behind (clean_commas g3) f4 32 price k.2.2 n3,
            read_uint-behind (clean_commas g4) [] 32 qty k.2.2.2 n4,
          )
          refl

    -- A line `M id symbol price qty`, with spaces or commas between, whose numbers are decimal and fit
    -- their types, sends the modification of the order that the exchange confirmed for the id; if it
    -- confirmed none, or one with the id 0, nothing is sent and the line is answered with an error.
    pub on_line-modify :
        (c : Client)
        → on_line (codes "M" ++ behind modify_line) c ≡ (
            if exchange_id (value 0 id) c == 0
            then done (prints (unknown_internal_id (value 0 id)) c)
            else send_or_stop
                (modify_order_request_bytes (record {
                  header = record { length = 23; type = modify_order_request };
                  order_id = exchange_id (value 0 id) c;
                  symbol_id = value 0 sym;
                  price = value 0 price;
                  qty = value 0 qty;
                }))
                c)
    unfolding on_modify send_for modify_order_of
    on_line-modify c = on_line-M modify_line h c ∙ rw (on_modify, read_modify_line) refl

module _ (g1 id g2 sym : List ℕ) where
  abbrev pub cancel_line : List (List ℕ × List ℕ)
  cancel_line = (g1, id) ∷ (g2, sym) ∷ []

  module _ (h : AreFields cancel_line) (n1 : IsNumber 64 id) (n2 : IsNumber 32 sym) where
    read_cancel_line :
        read_cancel_fields (behind (cleaned cancel_line))
        ≡ some (record { internal_id = value 0 id; symbol_id = value 0 sym }, [])
    unfolding read_cancel_fields
    read_cancel_line =
        let k = cleaned-AreCleaned cancel_line h in
        let f2 : List (List ℕ × List ℕ) = (clean_commas g2, sym) ∷ [] in
        rw
          (
            read_cancel_fields,
            ◌>>=◌,
            read_uint-behind (clean_commas g1) f2 64 id k n1,
            read_uint-behind (clean_commas g2) [] 32 sym k.2 n2,
          )
          refl

    -- A line `C id symbol`, with spaces or commas between, whose numbers are decimal and fit their
    -- types, sends the cancellation of the order that the exchange confirmed for the id; if it
    -- confirmed none, or one with the id 0, nothing is sent and the line is answered with an error.
    pub on_line-cancel :
        (c : Client)
        → on_line (codes "C" ++ behind cancel_line) c ≡ (
            if exchange_id (value 0 id) c == 0
            then done (prints (unknown_internal_id (value 0 id)) c)
            else send_or_stop
                (cancel_order_request_bytes (record {
                  header = record { length = 15; type = cancel_order_request };
                  order_id = exchange_id (value 0 id) c;
                  symbol_id = value 0 sym;
                }))
                c)
    unfolding on_cancel send_for cancel_order_of
    on_line-cancel c = on_line-C cancel_line h c ∙ rw (on_cancel, read_cancel_line) refl
