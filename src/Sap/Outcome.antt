-- ===== src/Sap/Outcome.antt =====
-- What SAP's answer means for the job.
use order_sync.Base.{
  ℕ, ◌-◌, ◌*◌, min, ◌^◌, ◌≤◌, ◌<◌, String, false, Option, none, some, ◌≡◌, refl, ◌↔◌, arith,
  is_empty, text_eq→eq, text_eq_refl,
}
use order_sync.Base.Int.{ℤ, pos, negsuc}
use order_sync.Contracts.{Time}
use order_sync.Worker.Deliver.{SapReply}
use order_sync.Sap.Response.{
  Parsers, Body, HttpResponse, parse_response, until_date, decoded, read_body, seconds_or_date,
  max_duration,
}

-- A Retry-After that parseRetryAfter accepts is a duration that an int64 of nanoseconds holds, and not
-- negative.
date-fits :
    (now date : Time) (h : ℤ)
    → until_date now (some date) ≡ some h
    → (n : ℕ) × (h ≡ pos n) × (n < 2 ^ 63)
date-fits now date h e = (min (date - now) max_duration, ground arith, omega arith)

seconds_or_date-fits :
    (seconds : Option ℤ) (now : Time) (date : Option Time) (h : ℤ)
    → seconds_or_date seconds now date ≡ some h
    → (n : ℕ) × (h ≡ pos n) × (n < 2 ^ 63)
seconds_or_date-fits (some (pos n)) now date h e =
    let small = seconds-small in (n * 10 ^ 9, small.1, small.0)
  where
    seconds-small : (n * 10 ^ 9 < 2 ^ 63) × (h ≡ pos (n * 10 ^ 9))
    seconds-small = ground arith
seconds_or_date-fits (some (negsuc k)) now none h e = ground arith
seconds_or_date-fits (some (negsuc k)) now (some date) h e = date-fits now date h e
seconds_or_date-fits none now none h e = ground arith
seconds_or_date-fits none now (some date) h e = date-fits now date h e

decoded-synced :
    (fields : Option (String × String)) (sap_id : String)
    → decoded fields ≡ SapReply.synced sap_id
    → (fields ≡ some ("success", sap_id)) × (is_empty sap_id ≡ false)
decoded-synced none sap_id h = ground arith
decoded-synced (some (status, id)) sap_id h =
    (ground (arith, text_eq→eq status "success"), ground (arith))

read_body-synced :
    (p : Parsers) (body : Body) (sap_id : String)
    → read_body p body ≡ SapReply.synced sap_id
    → ((text : String) × (body ≡ Body.complete text)
        × (p.unmarshal (p.limit_reader (2 ^ 20) text) ≡ some ("success", sap_id)))
      × (is_empty sap_id ≡ false)
read_body-synced p (Body.broken e) sap_id h = ground arith
read_body-synced p (Body.complete text) sap_id h =
    let (fields, id) = decoded-synced (p.unmarshal (p.limit_reader (2 ^ 20) text)) sap_id h in
    ((text, refl, fields), id)

-- The replies that are a success: exactly those with a status from 200 to 299 whose body can be read,
-- and holds the status "success" and an id that is not empty within its first mebibyte.
pub parse_response-synced :
    (p : Parsers) (response : HttpResponse) (now : Time) (sap_id : String)
    → (parse_response p response now ≡ SapReply.synced sap_id) ↔ (
        (200 ≤ response.status_code)
        × (response.status_code < 300)
        × ((text : String) × (response.body ≡ Body.complete text)
            × (p.unmarshal (p.limit_reader (2 ^ 20) text) ≡ some ("success", sap_id)))
        × (is_empty sap_id ≡ false))
unfolding parse_response
parse_response-synced p response now sap_id = (only, enough)
  where
    in_range :
        parse_response p response now ≡ SapReply.synced sap_id
        → (200 ≤ response.status_code)
          × (response.status_code < 300)
          × (read_body p response.body ≡ SapReply.synced sap_id)
    in_range h = ground arith

    only :
        parse_response p response now ≡ SapReply.synced sap_id
        → (200 ≤ response.status_code)
          × (response.status_code < 300)
          × ((text : String) × (response.body ≡ Body.complete text)
              × (p.unmarshal (p.limit_reader (2 ^ 20) text) ≡ some ("success", sap_id)))
          × (is_empty sap_id ≡ false)
    only h =
        let (low, high, read) = in_range h in
        let (body, id) = read_body-synced p response.body sap_id read in (low, high, body, id)

    enough :
        (200 ≤ response.status_code)
          × (response.status_code < 300)
          × ((text : String) × (response.body ≡ Body.complete text)
              × (p.unmarshal (p.limit_reader (2 ^ 20) text) ≡ some ("success", sap_id)))
          × (is_empty sap_id ≡ false)
        → parse_response p response now ≡ SapReply.synced sap_id
    enough (low, high, (text, body, fields), id) = ground (arith, text_eq_refl "success")
