-- ===== src/WalletRpc/Dispatch/Report.antt =====
-- `companion_reportIssue`: a prefilled link, nothing is filed (crates/wallet-rpc/src/dispatch.rs).
use strkd.Prelude.{
  ℕ, zero, suc, ◌+◌, ◌-◌, String, false, ◌||◌, none, some, [], ◌∷◌, leb, if◌then◌else◌,
}
use strkd.Prelude.Text.{text_eq, ◌<>◌}
use strkd.Prelude.Json.{Value, bool, text, object_of}
use strkd.Prelude.Formats.{Formats}
use strkd.Prelude.Result.{Result, ok, err, ◌>>=◌, ◌>>◌}
use strkd.WalletRpc.Auth.{PairedClient}
use strkd.WalletRpc.Dispatch.Params.{param_str, opt_param_str, or_default}
use strkd.WalletRpc.Dispatch.Query.{encode_query}
use strkd.WalletRpc.Error.{WalletRpcError, invalid_request}
use strkd.WalletRpc.State.{ServerState}

-- `chars().count()` and `chars().take(n)`
unfoldable pub count_chars : String → ℕ
count_chars String.[] = 0
count_chars (String.◌∷◌ c s) = count_chars s + 1

unfoldable pub take_chars : ℕ → String → String
take_chars zero s = ""
take_chars (suc n) String.[] = ""
take_chars (suc n) (String.◌∷◌ c s) = String.◌∷◌ c (take_chars n s)

unfoldable pub truncate_chars : String → ℕ → String
truncate_chars s max = if leb (count_chars s) max then s else take_chars (max - 1) s <> "…"

module _ (f : Formats) where
  unfoldable pub push_field : String → String → String → String
  push_field body label val =
      if text_eq (f.trim val) ""
      then body
      else body <> "**" <> label <> ":** " <> f.trim val <> "\n\n"

  abbrev pub push_optional : Value → String → String → String → String
  push_optional params body label key = elim (opt_param_str params key) [
    | none ↦ body
    | some v ↦ push_field body label v
  ]

  unfoldable pub report_body : PairedClient → Value → String → String → String
  report_body client params goal needed =
      let b0 = push_field (push_field "" "Goal" goal) "Needed" needed in
      let b1 = push_optional params b0 "Attempted" "attempted" in
      let b2 = push_optional params b1 "Observed" "observed" in
      let b3 = push_optional params b2 "Limitation" "limitation" in
      let b4 = push_optional params b3 "Impact" "impact" in
      let b5 = push_optional params b4 "Workaround avoided" "workaround_avoided" in
      let b6 = push_optional params b5 "Context" "context" in
      truncate_chars
        (b6 <> "---\n_Filed via strkd `companion_reportIssue` by **" <> client.label <> "** ("
          <> client.id
          <> "). strkd is alpha — review and edit before submitting, and remove anything sensitive._")
        5000

  abbrev query : String → String
  query s = f.from_ascii (encode_query (f.bytes s))

  unfoldable pub handle_report_issue :
      PairedClient → Value → ServerState → Result WalletRpcError Value
  handle_report_issue client params st = do
    goal ← param_str params "goal"
    needed ← param_str params "needed"
    if text_eq (f.trim goal) "" || text_eq (f.trim needed) ""
        then err (invalid_request "`goal` and `needed` must be non-empty")
        else ok tt
    let raw_title = or_default goal (opt_param_str params "title")
    let title = "[agent-feedback] " <> truncate_chars (f.trim raw_title) 120
    let body = report_body client params goal needed
    ok (
        object_of (
          (
            "url",
            text (
                "https://github.com/"
                <> st.issue_repo
                <> "/issues/new?title="
                <> query title
                <> "&body="
                <> query body),
          )
          ∷ ("title", text title)
          ∷ ("body", text body)
          ∷ ("repo", text st.issue_repo)
          ∷ ("filed", bool false)
          ∷ (
            "instructions",
            text
                "Give this `url` to your operator. Opening it loads a prefilled GitHub issue draft; they review, edit, and submit it in their browser. strkd does not file it for you, and stores no GitHub credential.",
          )
          ∷ []))
