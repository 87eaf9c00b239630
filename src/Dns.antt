-- ===== src/Dns.antt =====
-- DNS names of the providers: internal/dns/authzone and internal/ddns/provider/record_name.go.
pub mod AuthZone
pub mod RecordName
