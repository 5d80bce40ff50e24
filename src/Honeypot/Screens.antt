-- ===== src/Honeypot/Screens.antt =====
-- internal/honeypot/ssh_handler.go: the screens of the commands whose output is fixed.
use phantom_grid.Prelude.{[], ◌∷◌}
use phantom_grid.Prelude.Bytes.{Bytes}
use phantom_grid.Honeypot.Text.{screen}

abbrev pub ps_text : Bytes
ps_text = screen (
    "  PID TTY          TIME CMD" ∷ "    1 ?        00:00:01 systemd"
    ∷ "  456 ?        00:00:02 sshd" ∷ "  789 ?        00:00:00 nginx"
    ∷ "  890 ?        00:00:01 mysqld" ∷ "  901 ?        00:00:00 redis-server"
    ∷ " 1234 ?        00:00:00 apache2" ∷ [])

abbrev pub ps_aux_text : Bytes
ps_aux_text = screen (
    "USER       PID %CPU %MEM    VSZ   RSS TTY      STAT START   TIME COMMAND"
    ∷ "root         1  0.0  0.1  22536  3824 ?        Ss   Dec10   0:01 /sbin/init"
    ∷ "root       456  0.0  0.2  47864  8960 ?        Ss   Dec10   0:02 /usr/sbin/sshd"
    ∷ "root       789  0.0  0.1  23456  5120 ?        S    Dec10   0:00 /usr/sbin/nginx"
    ∷ "mysql      890  0.1  2.5 123456 25600 ?        Sl   Dec10   0:15 /usr/sbin/mysqld"
    ∷ "redis      901  0.0  0.3  12345  3072 ?        Ssl  Dec10   0:01 /usr/bin/redis-server"
    ∷ "www-data  1234  0.0  0.2  34567  2048 ?        S    Dec10   0:00 /usr/sbin/apache2" ∷ [])

abbrev pub netstat_text : Bytes
netstat_text = screen (
    "Active Internet connections (w/o servers)"
    ∷ "Proto Recv-Q Send-Q Local Address           Foreign Address         State"
    ∷ "tcp        0      0 0.0.0.0:22              0.0.0.0:*               LISTEN"
    ∷ "tcp        0      0 0.0.0.0:80              0.0.0.0:*               LISTEN"
    ∷ "tcp        0      0 0.0.0.0:443             0.0.0.0:*               LISTEN"
    ∷ "tcp        0      0 0.0.0.0:3306            0.0.0.0:*               LISTEN" ∷ [])

abbrev pub netstat_an_text : Bytes
netstat_an_text = screen (
    "Active Internet connections (servers and established)"
    ∷ "Proto Recv-Q Send-Q Local Address           Foreign Address         State"
    ∷ "tcp        0      0 0.0.0.0:22              0.0.0.0:*               LISTEN"
    ∷ "tcp        0      0 0.0.0.0:80              0.0.0.0:*               LISTEN"
    ∷ "tcp        0      0 127.0.0.1:3306          0.0.0.0:*               LISTEN" ∷ [])

abbrev pub ip_addr_text : Bytes
ip_addr_text = screen (
    "1: lo: <LOOPBACK,UP,LOWER_UP> mtu 65536 qdisc noqueue state UNKNOWN group default qlen 1000"
    ∷ "    link/loopback 00:00:00:00:00:00 brd 00:00:00:00:00:00"
    ∷ "    inet 127.0.0.1/8 scope host lo" ∷ "       valid_lft forever preferred_lft forever"
    ∷ "2: eth0: <BROADCAST,MULTICAST,UP,LOWER_UP> mtu 1500 qdisc pfifo_fast state UP group default qlen 1000"
    ∷ "    link/ether 00:0c:29:12:34:56 brd ff:ff:ff:ff:ff:ff"
    ∷ "    inet 192.168.1.100/24 brd 192.168.1.255 scope global eth0"
    ∷ "       valid_lft forever preferred_lft forever" ∷ [])

abbrev pub ifconfig_text : Bytes
ifconfig_text = screen (
    "eth0: flags=4163<UP,BROADCAST,RUNNING,MULTICAST>  mtu 1500"
    ∷ "        inet 192.168.1.100  netmask 255.255.255.0  broadcast 192.168.1.255"
    ∷ "        ether 00:0c:29:12:34:56  txqueuelen 1000  (Ethernet)"
    ∷ "        RX packets 12345  bytes 1234567 (1.2 MB)"
    ∷ "        RX errors 0  dropped 0  overruns 0  frame 0"
    ∷ "        TX packets 9876  bytes 987654 (987.6 KB)"
    ∷ "        TX errors 0  dropped 0 overruns 0  carrier 0  collisions 0" ∷ [])

abbrev pub df_text : Bytes
df_text = screen (
    "Filesystem     1K-blocks    Used Available Use% Mounted on"
    ∷ "/dev/sda1       20971520 8388608  12582912  40% /"
    ∷ "tmpfs             524288       0    524288   0% /dev/shm"
    ∷ "/dev/sda2       52428800 10485760  41943040  20% /home" ∷ [])

abbrev pub free_text : Bytes
free_text = screen (
    "              total        used        free      shared  buff/cache   available"
    ∷ "Mem:         8192000     4096000     2048000      512000     2048000     3584000"
    ∷ "Swap:        2097152           0     2097152" ∷ [])

abbrev pub top_text : Bytes
top_text = screen (
    "top - 10:30:15 up 5 days,  2:15,  1 user,  load average: 0.45, 0.52, 0.48"
    ∷ "Tasks: 125 total,   1 running, 124 sleeping,   0 stopped,   0 zombie"
    ∷ "%Cpu(s):  2.5 us,  1.2 sy,  0.0 ni, 96.3 id,  0.0 wa,  0.0 hi,  0.0 si,  0.0 st"
    ∷ "MiB Mem :   8000.0 total,   4000.0 free,   2000.0 used,   2000.0 buff/cache"
    ∷ "MiB Swap:   2048.0 total,   2048.0 free,      0.0 used.   5500.0 avail Mem" ∷ ""
    ∷ "  PID USER      PR  NI    VIRT    RES    SHR S  %CPU  %MEM     TIME+ COMMAND"
    ∷ "  890 mysql     20   0  123456  25600   5120 S   1.2   0.3   0:15.23 mysqld"
    ∷ "  456 root      20   0   47864   8960   2048 S   0.3   0.1   0:02.45 sshd"
    ∷ "    1 root      20   0   22536   3824   2048 S   0.0   0.0   0:01.23 systemd" ∷ [])
