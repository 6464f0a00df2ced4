-- ===== src/Protocol/Governance/Names.antt =====
-- The names under which the relay serves the tools of a bundle that is accepted.
use toolhub.Common.{
  ◌+◌, String, Bool, List, [], ◌∷◌, ◌++◌, map, ok, occurrences, occurrences-append, IsUnique,
  IsUnique-cons, length, ltb, ◌≡◌, arith, Option-cases, Result-cases, inl, inr,
}
use toolhub.Protocol.Bundle.{RoutingTool, ServerContract, RoutingBundle}
use toolhub.Protocol.External.{External}
use toolhub.Protocol.Governance.{
  runtime_name, ServerScan, check_tools, check_server, check_servers, empty_scan, validate_bundle,
}
use toolhub.Protocol.Governance.Laws.{validate_bundle-loops}

-- The runtime names of one server's tools, and of all the tools of the servers.
abbrev pub tool_names : Bool → String → List RoutingTool → List String
tool_names many server ts = map (λ t. runtime_name many server t.name) ts

abbrev pub runtime_names : Bool → List ServerContract → List String
runtime_names many [] = []
runtime_names many (s ∷ ss) = tool_names many s.server_name s.tools ++ runtime_names many ss

module _ (ext : External) where
  check_tools-names :
      (many : Bool) (server : String) (ts : List RoutingTool) (ids names : List String)
      (scan next : ServerScan)
      → check_tools ext many server ts ids names scan ≡ ok next
      → IsUnique scan.runtime_tool_names
      → IsUnique next.runtime_tool_names
        × ((k : String)
            → occurrences k next.runtime_tool_names
              ≡ occurrences k (tool_names many server ts) + occurrences k scan.runtime_tool_names)
  unfolding check_tools
  check_tools-names many server [] ids names scan next h u =
      (λ k. ground (arith, u k), λ k. ground arith)
  check_tools-names many server (t ∷ ts) ids names scan next h u =
      let n = runtime_name many server t.name in
      let step : ServerScan = record scan {
        runtime_tool_names = n ∷ scan.runtime_tool_names;
        total_tools = scan.total_tools + 1;
      } in
      let (v, e) =
        check_tools-names many server ts (t.tool_id ∷ ids) (t.name ∷ names) step next (ground arith)
          (IsUnique-cons n scan.runtime_tool_names (ground arith) u) in
      (v, λ k. omega (arith, e k))

  check_servers-names :
      (mode : String) (many : Bool) (ss : List ServerContract) (scan next : ServerScan)
      → check_servers ext mode many ss scan ≡ ok next
      → IsUnique scan.runtime_tool_names
      → IsUnique next.runtime_tool_names
        × ((k : String)
            → occurrences k next.runtime_tool_names
              ≡ occurrences k (runtime_names many ss) + occurrences k scan.runtime_tool_names)
  unfolding check_servers
  check_servers-names mode many [] scan next h u = (λ k. ground (arith, u k), λ k. ground arith)
  check_servers-names mode many (s ∷ ss) scan next h u =
      let with_ids : ServerScan = record scan {
        ids = s.server_id ∷ scan.ids;
        names = s.server_name ∷ scan.names;
      } in
      elim (Option-cases (check_server ext mode s scan)) [
        | inr (e, q) ↦ absurd (ground (arith, q))
        | inl q ↦ elim (Result-cases (check_tools ext many s.server_name s.tools [] [] with_ids)) [
          | inl (e, p) ↦ absurd (ground (arith, q, p))
          | inr (mid, p) ↦
              let (v, f) = check_tools-names many s.server_name s.tools [] [] with_ids mid p u in
              let (w, g) = check_servers-names mode many ss mid next (ground (arith, q, p)) v in
              (
                w,
                λ k. omega (
                  arith,
                  f k,
                  g k,
                  occurrences-append k (tool_names many s.server_name s.tools)
                      (runtime_names many ss),
                ),
              )
        ]
      ]

  -- In a bundle that is accepted no two tools have one runtime name, across all the servers.
  pub validate_bundle-IsUnique :
      (b : RoutingBundle)
      → validate_bundle ext b ≡ ok tt
      → IsUnique (runtime_names (ltb 1 (length b.servers)) b.servers)
  validate_bundle-IsUnique b h k =
      let many = ltb 1 (length b.servers) in
      let (scan, e) = (validate_bundle-loops ext b h).0 in
      let (u, f) = check_servers-names b.mode many b.servers empty_scan scan e (λ j. omega arith) in
      omega (arith, u k, f k)
