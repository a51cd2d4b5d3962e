-- ===== src/Metrics/Tests.antt =====
-- The exposition on concrete values.
use inso_validator.Prelude.{◌≡◌, refl, [], ◌∷◌, arith}
use inso_validator.Prelude.Int.{pos, negsuc}
use inso_validator.Text.{print_int, codes, digit, numeral}
use inso_validator.Metrics.{Metrics, new_metrics, health_body, handle_metrics}
use inso_validator.Metrics.Format.{
  Family, exposition, scrape, all_lines, family_lines, sample_lines, sample_line, end_lines,
}
use inso_validator.Metrics.Exposition.{IsMachine, by_name, scrape-handle_metrics}

negative_printed : print_int (negsuc 41) ≡ codes "-42"
unfolding print_int numeral digit
negative_printed = refl

abbrev peers : Family
peers = record {
  name = "inso_validator_peer_count";
  help = "Connected P2P peers";
  kind = "gauge";
  samples = ("inso_validator_peer_count", pos 12) ∷ [];
}

peers_exposed :
    exposition (peers ∷ [])
    ≡ codes
        "# HELP inso_validator_peer_count Connected P2P peers\n# TYPE inso_validator_peer_count gauge\ninso_validator_peer_count 12\n\n"
unfolding exposition all_lines family_lines sample_lines sample_line end_lines print_int numeral
    digit
peers_exposed = refl

abbrev busy : Metrics
busy = record new_metrics { attestations_created = 41; is_synced = pos 1; current_xp = negsuc 6 }

busy-IsMachine : IsMachine busy
unfolding new_metrics
busy-IsMachine = omega arith

scrape-handle_metrics_example : scrape (handle_metrics busy) ≡ by_name busy
scrape-handle_metrics_example = scrape-handle_metrics busy busy-IsMachine

healthy :
    health_body busy (pos 1700000000)
    ≡ codes
        "{\"status\":\"ok\",\"service\":\"inso-validator\",\"synced\":true,\"peers\":0,\"timestamp\":1700000000}"
unfolding health_body new_metrics print_int numeral digit
healthy = refl
